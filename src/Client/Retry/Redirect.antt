-- ===== src/Client/Retry/Redirect.antt =====
-- src/gateway/server.rs and crates/rsqlite-rsync-client/src/client.rs: the refusal of a node that is
-- not the leader leads the client to the leader.
use Prim.Native.Char.{Char}
use text.Mathlib.Text.{◌==◌ as str_eq}
use rsqlite_rsync.Base.{ℕ, suc, Bool, List}
use rsqlite_rsync.Ha.Runtime.{HaSharedState}
use rsqlite_rsync.Gateway.Status.{Tonic, Status}
use rsqlite_rsync.Gateway.Host.{Host}
use rsqlite_rsync.Gateway.Server.{not_leader_status}
use rsqlite_rsync.Gateway.Server.{Reply}
use rsqlite_rsync.Client.Discovery.{ClientConfig, Net}
use rsqlite_rsync.Client.Retry.{SqlGatewayClient, process_leader_header, Turn, turn}

module _ (t : Tonic) (h : Host) where
  open t use {Value, parse, parse_plain, parse-to_str, parse-is_text}

  module _ {A : Type 0} (config : ClientConfig) (nets : ℕ → Net Value)
      (op : ℕ → List Char → Reply Value A) (idempotent : Bool) (n : ℕ) (state : HaSharedState)
      (c : SqlGatewayClient) where
    -- The attempt after the one that was refused.
    abbrev pub next_attempt : Turn t config nets op idempotent
    next_attempt =
        turn t config nets op idempotent (suc n)
          (process_leader_header t c (not_leader_status t h state))
