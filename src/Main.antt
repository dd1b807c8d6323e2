-- ===== src/Main.antt =====
-- src/main.rs: the command line, `run` and the sync of two ends. The client's commands, the HA mode and the
-- two server modes are parameters.
pub mod Node
pub mod BatchMode
pub mod Same
use Prim.Native.Char.{Char}
use rsqlite_rsync.Base.{
  ℕ, List, [], ◌∷◌, Option, none, some, Bool, true, false, not, ◌&&◌, ◌||◌, ◌==◌, if◌then◌else◌,
}
use rsqlite_rsync.Error.{SyncError, protocol, page_size_mismatch, Result, ok, err, panic}
use rsqlite_rsync.Protocol.Messages.{plain}
use rsqlite_rsync.Endpoint.{Endpoint, local, remote, grpc, parse, is_remote}
use rsqlite_rsync.Gateway.Host.{Call, continue_call, pure_call}
use rsqlite_rsync.Batch.Manifest.{ManifestFormat}
use rsqlite_rsync.Batch.Dispatch.{Syncs, or_token}

-- The arguments that `run` and the batch mode read.
pub record Args (Command : Type 0) : Type 0 where
  pub command : Option Command
  pub origin : Option (List Char)
  pub replica : Option (List Char)
  pub dry_run : Bool
  pub grpc_auth_token : Option (List Char)
  pub batch_manifest : Option (List Char)
  pub batch_format : ManifestFormat
  pub batch_jobs : ℕ
  pub batch_retries : ℕ
  pub batch_timeout_secs : ℕ
  pub batch_retry_backoff_ms : ℕ
  pub batch_retry_backoff_max_ms : ℕ
  pub batch_retry_jitter_pct : ℕ
  pub server : Bool
  pub server_origin : Bool
  pub server_replica : Bool
  pub ha : Bool
  pub ha_grpc_auth_token : Option (List Char)

-- What `run` hands over to; each is a whole mode.
pub record Modes (World Command : Type 0) : Type 0 where
  pub run_command : Command → Call World (Unit {0})
  pub run_batch_mode : Call World (Unit {0})
  pub run_ha_mode : Call World (Unit {0})
  pub server_replica_mode : List Char → Call World (Unit {0})
  pub server_origin_mode : List Char → Call World (Unit {0})

module _ (s : Syncs) where
  open s use {
    World, sync_local, push_sync, pull_sync, grpc_push_sync, grpc_pull_sync, read_page_size,
    read_page_count, exists,
  }

  abbrev pub count_pages : List Char → Call World (Unit {0})
  count_pages origin w =
      continue_call (w, read_page_count origin w) (λ page_count. pure_call (ok tt))

  -- The page sizes, and then the page count that is printed.
  unfoldable pub dry_run_local : List Char → List Char → Call World (Unit {0})
  dry_run_local origin replica w =
      continue_call (w, read_page_size origin w)
        (λ o w1.
          if exists replica w1
          then continue_call (w1, read_page_size replica w1)
              (λ r w2.
                if not (o == r) then (w2, err (page_size_mismatch o r)) else count_pages origin w2)
          else count_pages origin w1)

  -- The match of `run`; its last arm is `unreachable!`.
  unfoldable pub matched : Bool → Option (List Char) → Endpoint → Endpoint → Call World (Unit {0})
  unfolding dry_run_local
  matched dry_run token (local o) (local r) w =
      if not dry_run then sync_local o r w else dry_run_local o r w
  matched dry_run token (local o) (remote user_host path) w =
      if dry_run then (w, ok tt) else push_sync o user_host path w
  matched dry_run token (remote user_host path) (local r) w =
      if dry_run then (w, ok tt) else pull_sync r user_host path w
  matched dry_run token (local o) (grpc url database) w =
      if dry_run then (w, ok tt) else grpc_push_sync o url database token w
  matched dry_run token (grpc url database) (local r) w =
      if dry_run then (w, ok tt) else grpc_pull_sync r url database token w
  matched dry_run token (remote u p) (remote v q) w = (w, panic)
  matched dry_run token (remote u p) (grpc url database) w = (w, panic)
  matched dry_run token (grpc url database) (remote u p) w = (w, panic)
  matched dry_run token (grpc url database) (grpc address base) w = (w, panic)

  unfoldable pub sync_two : Bool → Option (List Char) → Endpoint → Endpoint → Call World (Unit {0})
  unfolding matched is_remote
  sync_two dry_run token o r w =
      if is_remote o && is_remote r
      then (w, err (protocol (plain "at least one of ORIGIN or REPLICA must be local")))
      else matched dry_run token o r w

  module _ {Command : Type 0} (modes : Modes World Command) (args : Args Command) where
    abbrev pub with_replica : List Char → Option (List Char) → Call World (Unit {0})
    with_replica origin none w =
        (w, err (protocol (plain "REPLICA is required unless --server is set")))
    with_replica origin (some replica) w =
        sync_two args.dry_run (or_token args.grpc_auth_token args.ha_grpc_auth_token) (parse origin)
          (parse replica) w

    abbrev pub with_origin : Option (List Char) → Call World (Unit {0})
    with_origin none w =
        (w, err (protocol (plain "ORIGIN is required unless --ha or a client subcommand is set")))
    with_origin (some origin) w =
        if args.server_replica
        then modes.server_replica_mode origin w
        else if args.server || args.server_origin
        then modes.server_origin_mode origin w
        else with_replica origin args.replica w

    abbrev is_given : Option (List Char) → Bool
    is_given none = false
    is_given (some path) = true

    abbrev pub by_command : Option Command → Call World (Unit {0})
    by_command (some c) w = modes.run_command c w
    by_command none w =
        if is_given args.batch_manifest
        then modes.run_batch_mode w
        else if args.ha
        then modes.run_ha_mode w
        else with_origin args.origin w

    unfoldable pub run : Call World (Unit {0})
    unfolding sync_two parse
    run w = by_command args.command w
