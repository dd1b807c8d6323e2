-- ===== src/Batch.antt =====
-- src/batch.rs: the attempts of one entry of a batch and the delays between them. Delays are in
-- milliseconds, time limits in seconds. An attempt is a parameter: it runs a sync over SSH, gRPC or on local files.
pub mod Delay
pub mod Attempts
pub mod Schedule
pub mod Manifest
pub mod Dispatch
use Prim.Native.Char.{Char}
use rsqlite_rsync.Base.{
  ℕ, String, zero, suc, ◌+◌, ◌-◌, ◌*◌, ◌/◌, ◌%◌, ◌^◌, List, [], ◌∷◌, Option, none, some, Bool, min,
  ltb, ◌==◌, if◌then◌else◌,
}
use rsqlite_rsync.Error.{SyncError, protocol}
use rsqlite_rsync.Protocol.Messages.{format}

-- One entry of a batch.
pub record BatchSyncSpec : Type 0 where
  pub name : Option (List Char)
  pub origin : List Char
  pub replica : List Char
  pub dry_run : Option Bool
  pub retries : Option ℕ
  pub timeout_secs : Option ℕ
  pub retry_backoff_ms : Option ℕ
  pub retry_backoff_max_ms : Option ℕ
  pub retry_jitter_pct : Option ℕ
  pub grpc_auth_token : Option (List Char)

pub record BatchRuntimeOptions : Type 0 where
  pub jobs : ℕ
  pub default_dry_run : Bool
  pub default_retries : ℕ
  pub default_timeout : Option ℕ
  pub retry_backoff_base : Option ℕ
  pub retry_backoff_max : Option ℕ
  pub retry_jitter_pct : ℕ
  pub grpc_auth_token : Option (List Char)

-- `u128::saturating_mul` and `saturating_add`.
abbrev pub capped : ℕ → ℕ
capped n = min n 340282366920938463463374607431768211455

-- `.min(max)` where there is a maximum.
abbrev pub limited : ℕ → Option ℕ → ℕ
limited delay none = delay
limited delay (some limit) = min delay limit

-- The delay moved by up to `jitter_span` either way; below 0 it is 0.
abbrev pub jittered : ℕ → ℕ → ℕ → ℕ
jittered delay_ms jitter_span entropy =
    if ltb 0 jitter_span
    then delay_ms + entropy % capped (capped (jitter_span * 2) + 1) - jitter_span
    else delay_ms

abbrev pub with_jitter : ℕ → ℕ → ℕ → ℕ
with_jitter delay_ms jitter_pct entropy =
    if ltb 0 jitter_pct
    then jittered delay_ms (capped (delay_ms * jitter_pct) / 100) entropy
    else delay_ms

-- `u64::try_from(..).unwrap_or(u64::MAX)`.
abbrev pub as_u64 : ℕ → ℕ
as_u64 n = min n 18446744073709551615

unfoldable pub retry_delay_for_attempt_core : ℕ → Option ℕ → ℕ → ℕ → ℕ → Option ℕ
retry_delay_for_attempt_core base max_ms jitter_pct attempt entropy =
    let delay_ms : ℕ = limited (capped (base * 2 ^ min (attempt - 1) 31)) max_ms in
    if delay_ms == 0 then none else some (as_u64 (with_jitter delay_ms jitter_pct entropy))

-- With the clock's reading; without a base there is no delay.
unfoldable pub retry_delay_for_attempt : Option ℕ → Option ℕ → ℕ → ℕ → ℕ → Option ℕ
unfolding retry_delay_for_attempt_core
retry_delay_for_attempt none max_ms jitter_pct attempt now_nanos = none
retry_delay_for_attempt (some base) max_ms jitter_pct attempt now_nanos =
    retry_delay_for_attempt_core base max_ms jitter_pct attempt now_nanos

abbrev unwrap_or {ℓ} : {A : Type ℓ} → Option A → A → A
unwrap_or none d = d
unwrap_or (some v) d = v

abbrev or_else : Option ℕ → Option ℕ → Option ℕ
or_else none d = d
or_else (some v) d = some v

abbrev positive : Option ℕ → Option ℕ
positive none = none
positive (some v) = if ltb 0 v then some v else none

-- `retries.saturating_add(1)`.
abbrev pub attempt_count : BatchSyncSpec → BatchRuntimeOptions → ℕ
attempt_count spec options = min (unwrap_or spec.retries options.default_retries + 1) 4294967295

-- What one attempt does, or the time limit that ends it.
pub data Attempt : Type 0 where
  succeeded timed_out : Attempt
  failed : SyncError → Attempt

-- What is left of an entry: its error, with the number of attempts that the message names; the
-- attempts made; and the delays between them.
pub record ItemOutcome : Type 0 where
  pub error : Option (ℕ × Option SyncError)
  pub attempts : ℕ
  pub delays : List (Option ℕ)

module _ (spec : BatchSyncSpec) (options : BatchRuntimeOptions) (run : ℕ → Attempt)
    (clock : ℕ → ℕ) where
  unfoldable pub delay_after : ℕ → Option ℕ
  unfolding retry_delay_for_attempt
  delay_after attempt =
      retry_delay_for_attempt (positive (or_else spec.retry_backoff_ms options.retry_backoff_base))
        (positive (or_else spec.retry_backoff_max_ms options.retry_backoff_max))
        (unwrap_or spec.retry_jitter_pct options.retry_jitter_pct) attempt (clock attempt)

  abbrev pub error_of : Attempt → Option SyncError
  error_of succeeded = none
  error_of (failed e) = some e
  error_of timed_out = some (
      protocol (
        format "sync attempt timed out after {}s"
          (unwrap_or (or_else spec.timeout_secs options.default_timeout) 0 ∷ [])))

  abbrev pub after_attempt : ℕ → Option SyncError → (Option SyncError → ItemOutcome) → ItemOutcome
  after_attempt attempt none next = record { error = none; attempts = attempt; delays = [] }
  after_attempt attempt (some e) next =
      let o : ItemOutcome = next (some e) in
      record o {
        delays =
            if ltb attempt (attempt_count spec options)
            then delay_after attempt ∷ o.delays
            else o.delays;
      }

  -- `for attempt in 1..=attempt_count`, with the attempts left.
  unfoldable pub attempts_from : ℕ → ℕ → Option SyncError → ItemOutcome
  unfolding delay_after
  attempts_from zero attempt last_error = record {
    error = some (attempt_count spec options, last_error);
    attempts = attempt - 1;
    delays = [];
  }
  attempts_from (suc left) attempt last_error =
      after_attempt attempt (error_of (run attempt)) (attempts_from left (attempt + 1))

  unfoldable pub run_one : ItemOutcome
  unfolding attempts_from
  run_one = attempts_from (attempt_count spec options) 1 none
