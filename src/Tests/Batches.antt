-- ===== src/Tests/Batches.antt =====
-- An entry of a batch whose first attempt times out, and one delay.
use rsqlite_rsync.Base.{
  ◌≡◌, refl, ◌≤◌, ◌-◌, max, length, [], ◌∷◌, ℕ, zero, suc, ◌<◌, some, none, false, arith,
}
use rsqlite_rsync.KvText.Chars.{chars}
use rsqlite_rsync.Batch.{
  BatchSyncSpec, BatchRuntimeOptions, Attempt, succeeded, timed_out, run_one,
  retry_delay_for_attempt_core,
}
use rsqlite_rsync.Batch.Schedule.{
  Running, start, complete, Runs, begun, then_completes, completes, report, item_result,
}
use rsqlite_rsync.Batch.Schedule.Report.{batch_bounds, batch_report, count_failures, in_order}
use rsqlite_rsync.Batch.Delay.{backoff, Bounded, retry_delay_bounds}

abbrev entry : BatchSyncSpec
entry = record {
  name = none;
  origin = chars "a.db";
  replica = chars "b.db";
  dry_run = none;
  retries = some 2;
  timeout_secs = some 5;
  retry_backoff_ms = some 100;
  retry_backoff_max_ms = none;
  retry_jitter_pct = some 10;
  grpc_auth_token = none;
}

abbrev defaults : BatchRuntimeOptions
defaults = record {
  jobs = 2;
  default_dry_run = false;
  default_retries = 0;
  default_timeout = none;
  retry_backoff_base = none;
  retry_backoff_max = none;
  retry_jitter_pct = 0;
  grpc_auth_token = none;
}

abbrev second_works : ℕ → Attempt
second_works zero = timed_out
second_works (suc zero) = timed_out
second_works (suc (suc n)) = succeeded

retry_delay_bounds_example :
    Bounded (backoff 100 (some 1000) 3) 10 (retry_delay_for_attempt_core 100 (some 1000) 10 3 7)
retry_delay_bounds_example = retry_delay_bounds 100 (some 1000) 10 3 7 (omega arith) (omega arith)

abbrev other : BatchSyncSpec
other = record entry { name = some (chars "other"); retries = none }

-- The second entry completes first.
abbrev second_first : Running
second_first =
    complete defaults (λ index. second_works) (λ index n. n)
      (complete defaults (λ index. second_works) (λ index n. n)
        (start (entry ∷ other ∷ []) defaults) (1, other) ((0, entry) ∷ []))
      (0, entry) []

abbrev both_run :
    Runs defaults
      (λ index. second_works)
      (λ index n. n)
      (start (entry ∷ other ∷ []) defaults)
      2
      second_first
unfolding start complete
both_run =
    then_completes (then_completes begun (completes ((0, entry) ∷ []) (1, other) [] refl))
      (completes [] (0, entry) [] refl)

nothing_left : second_first.in_flight ≡ []
unfolding start complete
nothing_left = refl

batch_bounds_example :
    (length second_first.in_flight ≤ max 2 1)
    × (2 ≤ 2)
    × (2 < 2 → 0 < length second_first.in_flight)
batch_bounds_example =
    batch_bounds defaults (λ index. second_works) (λ index n. n) (entry ∷ other ∷ []) both_run

batch_report_example : report second_first.results ≡ record {
  total = 2;
  succeeded =
      2
      - count_failures
          (in_order defaults (λ index. second_works) (λ index n. n) (entry ∷ other ∷ []));
  failed =
      count_failures
        (in_order defaults (λ index. second_works) (λ index n. n) (entry ∷ other ∷ []));
  results = in_order defaults (λ index. second_works) (λ index n. n) (entry ∷ other ∷ []);
}
batch_report_example =
    batch_report defaults (λ index. second_works) (λ index n. n) (entry ∷ other ∷ []) both_run
      nothing_left

-- `other` has one attempt, which times out.
one_failed : report second_first.results ≡ record {
  total = 2;
  succeeded = 1;
  failed = 1;
  results =
      record { index = 0; id = chars "a.db -> b.db"; error = none }
      ∷ item_result defaults (λ index. second_works) (λ index n. n) (1, other)
      ∷ [];
}
unfolding report start complete run_one item_result
one_failed = refl
