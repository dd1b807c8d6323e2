-- ===== src/Batch/Dispatch.antt =====
-- src/batch.rs: `run_one_inner`, the sync that the two ends of an entry ask for. The syncs are parameters, with
-- their executable, their SSH options and their tuning, which are the same for all of a run.
use Prim.Native.Char.{Char}
use rsqlite_rsync.Base.{ℕ, List, Option, none, some, Bool, not, ◌==◌, if◌then◌else◌}
use rsqlite_rsync.Error.{protocol, page_size_mismatch, Result, ok, err}
use rsqlite_rsync.Protocol.Messages.{plain}
use rsqlite_rsync.Endpoint.{Endpoint, local, remote, grpc, parse}
use rsqlite_rsync.Gateway.Host.{Call, continue_call, pure_call}
use rsqlite_rsync.Batch.{BatchSyncSpec, BatchRuntimeOptions}

pub record Syncs : Type 1 where
  pub World : Type 0
  pub sync_local : List Char → List Char → Call World (Unit {0})
  -- The local path, the host and the path there.
  pub push_sync : List Char → List Char → List Char → Call World (Unit {0})
  pub pull_sync : List Char → List Char → List Char → Call World (Unit {0})
  -- The local path, the address, the database and the token.
  pub grpc_push_sync :
      List Char → List Char → List Char → Option (List Char) → Call World (Unit {0})
  pub grpc_pull_sync :
      List Char → List Char → List Char → Option (List Char) → Call World (Unit {0})
  -- The page size of a database that is opened to read.
  pub read_page_size : List Char → World → Result ℕ
  pub read_page_count : List Char → World → Result ℕ
  pub exists : List Char → World → Bool

abbrev pub or_token : Option (List Char) → Option (List Char) → Option (List Char)
or_token none other = other
or_token (some token) other = some token

module _ (s : Syncs) where
  open s use {
    World, sync_local, push_sync, pull_sync, grpc_push_sync, grpc_pull_sync, read_page_size, exists,
  }

  abbrev same_page_size : ℕ → ℕ → Result (Unit {0})
  same_page_size o r = if not (o == r) then err (page_size_mismatch o r) else ok tt

  unfoldable pub dry_run_local : List Char → List Char → Call World (Unit {0})
  dry_run_local origin replica w =
      continue_call (w, read_page_size origin w)
        (λ o w1.
          if exists replica w1
          then continue_call (w1, read_page_size replica w1) (λ r. pure_call (same_page_size o r))
          else (w1, ok tt))

  -- The match of the two ends.
  unfoldable pub sync_ends : Bool → Option (List Char) → Endpoint → Endpoint → Call World (Unit {0})
  unfolding dry_run_local
  sync_ends dry_run token (local o) (local r) w =
      if not dry_run then sync_local o r w else dry_run_local o r w
  sync_ends dry_run token (local o) (remote user_host path) w =
      if dry_run then (w, ok tt) else push_sync o user_host path w
  sync_ends dry_run token (remote user_host path) (local r) w =
      if dry_run then (w, ok tt) else pull_sync r user_host path w
  sync_ends dry_run token (local o) (grpc url database) w =
      if dry_run then (w, ok tt) else grpc_push_sync o url database token w
  sync_ends dry_run token (grpc url database) (local r) w =
      if dry_run then (w, ok tt) else grpc_pull_sync r url database token w
  sync_ends dry_run token (remote u p) (remote v q) w =
      (w, err (protocol (plain "at least one of ORIGIN or REPLICA must be local")))
  sync_ends dry_run token (remote u p) (grpc url database) w =
      (w, err (protocol (plain "at least one of ORIGIN or REPLICA must be local")))
  sync_ends dry_run token (grpc url database) (remote u p) w =
      (w, err (protocol (plain "at least one of ORIGIN or REPLICA must be local")))
  sync_ends dry_run token (grpc url database) (grpc address base) w =
      (w, err (protocol (plain "gRPC to gRPC sync not supported")))

  unfoldable pub run_one_inner : BatchSyncSpec → Bool → BatchRuntimeOptions → Call World (Unit {0})
  unfolding sync_ends parse
  run_one_inner spec dry_run options w =
      sync_ends dry_run (or_token spec.grpc_auth_token options.grpc_auth_token) (parse spec.origin)
        (parse spec.replica) w
