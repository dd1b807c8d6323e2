-- ===== src/Main/BatchMode.antt =====
-- src/main.rs: `run_batch_mode`. The run of the batch itself, which is `run_batch_sync`, is an argument; what is
-- printed is left out.
pub mod Outcome
use Prim.Native.Char.{Char}
use rsqlite_rsync.Base.{
  ℕ, List, [], ◌∷◌, Option, none, some, Bool, true, false, ◌&&◌, ◌||◌, ltb, ◌==◌, if◌then◌else◌,
}
use rsqlite_rsync.Error.{SyncError, protocol, Result, ok, err, panic, and_then}
use rsqlite_rsync.Protocol.Messages.{plain, format}
use rsqlite_rsync.Batch.{BatchSyncSpec, BatchRuntimeOptions}
use rsqlite_rsync.Batch.Manifest.{Formats, load_manifest}
use rsqlite_rsync.Batch.Schedule.{BatchRunReport, any_failed}
use rsqlite_rsync.Main.{Args}

module _ {Command : Type 0} (args : Args Command) where
  abbrev is_some : Option (List Char) → Bool
  is_some none = false
  is_some (some path) = true

  abbrev manifest_path : Option (List Char) → Result (List Char)
  manifest_path none = err (protocol (plain "--batch-manifest is required in batch mode"))
  manifest_path (some path) = ok path

  -- The checks of the arguments, and the path of the manifest.
  unfoldable pub check_args : Result (List Char)
  check_args =
      if args.ha
      then err (protocol (plain "--batch-manifest cannot be used with --ha"))
      else if args.server || (args.server_origin || args.server_replica)
      then err (protocol (plain "--batch-manifest cannot be used with --server flags"))
      else if is_some args.origin || is_some args.replica
      then err (protocol (plain "batch mode does not accept ORIGIN/REPLICA positional arguments"))
      else if args.batch_jobs == 0
      then err (protocol (plain "--batch-jobs must be greater than 0"))
      else if ltb 100 args.batch_retry_jitter_pct
      then err (protocol (plain "--batch-retry-jitter-pct must be between 0 and 100"))
      else if ltb 0 args.batch_retry_backoff_max_ms
          && (ltb 0 args.batch_retry_backoff_ms
              && ltb args.batch_retry_backoff_max_ms args.batch_retry_backoff_ms)
      then err (protocol (plain "--batch-retry-backoff-max-ms must be >= --batch-retry-backoff-ms"))
      else manifest_path args.batch_manifest

  -- `(n > 0).then_some(n)`.
  abbrev positive : ℕ → Option ℕ
  positive n = if ltb 0 n then some n else none

  unfoldable pub options_of : BatchRuntimeOptions
  options_of = record {
    jobs = args.batch_jobs;
    default_dry_run = args.dry_run;
    default_retries = args.batch_retries;
    default_timeout = positive args.batch_timeout_secs;
    retry_backoff_base = positive args.batch_retry_backoff_ms;
    retry_backoff_max = positive args.batch_retry_backoff_max_ms;
    retry_jitter_pct = args.batch_retry_jitter_pct;
    grpc_auth_token = args.grpc_auth_token;
  }

  -- What the mode returns for a report.
  unfoldable pub result_of : BatchRunReport → Result (Unit {0})
  unfolding any_failed
  result_of report =
      if any_failed report
      then err
          (protocol (format "batch sync completed with {} failed entries" (report.failed ∷ [])))
      else ok tt

  unfoldable pub run_batch_mode :
      Formats → (List BatchSyncSpec → BatchRuntimeOptions → BatchRunReport) → Result (Unit {0})
  unfolding check_args options_of result_of
  run_batch_mode formats run_batch_sync = and_then check_args (λ path.
      and_then (load_manifest formats path args.batch_format)
        (λ specs. result_of (run_batch_sync specs options_of)))
