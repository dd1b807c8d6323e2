-- ===== src/Batch/Attempts.antt =====
-- src/batch.rs: the attempts that `run_one` makes.
use rsqlite_rsync.Base.{
  ℕ, zero, suc, ◌+◌, ◌-◌, ◌<◌, ◌≡◌, ◌⊎◌, ◌∷◌, length, Option, none, some, ltb, if◌then◌else◌,
}
use rsqlite_rsync.Error.{SyncError}
use rsqlite_rsync.Batch.{
  BatchSyncSpec, BatchRuntimeOptions, Attempt, ItemOutcome, attempt_count, error_of, delay_after,
}

module _ (spec : BatchSyncSpec) (options : BatchRuntimeOptions) (run : ℕ → Attempt)
    (clock : ℕ → ℕ) where
  -- The error of one attempt.
  abbrev pub attempt_error : ℕ → Option SyncError
  attempt_error attempt = error_of spec options run clock (run attempt)

  -- `n` attempts from `attempt` on fail.
  abbrev pub AllFail : ℕ → ℕ → Type 0
  AllFail zero attempt = Unit {0}
  AllFail (suc n) attempt =
      ((e : SyncError) × (attempt_error attempt ≡ some e)) × AllFail n (attempt + 1)

  -- Attempt `attempt + n` is the first that succeeds, and ends the entry; the `n` attempts before it
  -- are followed by one delay each.
  abbrev pub SucceedsAfter : ℕ → ℕ → ItemOutcome → Type 0
  SucceedsAfter n attempt o =
      AllFail n attempt
      × (attempt_error (attempt + n) ≡ none)
      × (o.error ≡ none)
      × (o.attempts ≡ attempt + n)
      × (length o.delays ≡ n)

  -- All of `left` attempts fail, and the error is that of the last one, with the number of attempts.
  abbrev pub FailsAfter : ℕ → ℕ → Option SyncError → ItemOutcome → Type 0
  FailsAfter left attempt last o =
      AllFail left attempt
      × (o.error ≡ some (attempt_count spec options, last))
      × (o.attempts + 1 ≡ attempt + left)
      × (length o.delays ≡ left - 1)

  -- The error known at the end of `left` attempts.
  abbrev pub final_error : ℕ → ℕ → Option SyncError → Option SyncError
  final_error zero attempt last = last
  final_error (suc left) attempt last = final_error left (attempt + 1) (attempt_error attempt)

  abbrev Ends : ℕ → ℕ → Option SyncError → ItemOutcome → Type 0
  Ends left attempt last o =
      ((n : ℕ) × (n < left) × SucceedsAfter n attempt o)
      ⊎ FailsAfter left attempt (final_error left attempt last) o

  abbrev with_pause : ℕ → ItemOutcome → ItemOutcome
  with_pause attempt o = record o {
    delays =
        if ltb attempt (attempt_count spec options)
        then delay_after spec options run clock attempt ∷ o.delays
        else o.delays;
  }
