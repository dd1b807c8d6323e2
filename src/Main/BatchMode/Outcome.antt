-- ===== src/Main/BatchMode/Outcome.antt =====
-- src/main.rs, `run_batch_mode`: when the batch mode succeeds.
use Prim.Native.Char.{Char}
use rsqlite_rsync.Base.{
  ℕ, ◌≡◌, refl, sym, ap, ◌∙◌, ◌↔◌, List, [], ◌∷◌, Option, none, some, Bool, true, false, ltb, ◌+◌,
  if◌then◌else◌, arith,
}
use rsqlite_rsync.Error.{SyncError, protocol, Result, ok, err}
use rsqlite_rsync.Protocol.Messages.{format}
use rsqlite_rsync.Batch.{BatchSyncSpec, BatchRuntimeOptions, Attempt}
use rsqlite_rsync.Batch.Manifest.{Formats, load_manifest}
use rsqlite_rsync.Batch.Schedule.{BatchItemResult, BatchRunReport, Running, start, Runs, report}
use rsqlite_rsync.Batch.Schedule.Report.{batch_report, count_failures, in_order}
use rsqlite_rsync.Main.{Args}
use rsqlite_rsync.Main.BatchMode.{check_args, options_of, result_of, run_batch_mode}

abbrev pub AllSucceed : List BatchItemResult → Type 0
AllSucceed [] = Unit
AllSucceed (item ∷ rest) = (item.error ≡ none) × AllSucceed rest

one_more :
    (o : Option (ℕ × Option SyncError)) (n : ℕ)
    → (if (elim o [ none ↦ true | some e ↦ false ]) then 0 else 1) + n ≡ 0
    → (o ≡ none) × (n ≡ 0)
one_more none n e = (refl, omega arith)
one_more (some x) n e = absurd (omega arith)

no_failures : (items : List BatchItemResult) → count_failures items ≡ 0 → AllSucceed items
no_failures [] e = tt
no_failures (a ∷ rest) e =
    let (q, p) = one_more a.error (count_failures rest) e in (q, no_failures rest p)

all_succeed : (items : List BatchItemResult) → AllSucceed items → count_failures items ≡ 0
all_succeed [] p = refl
all_succeed (a ∷ rest) (q, p) = let later = all_succeed rest p in rw q (omega arith)

finished :
    (r : BatchRunReport) (b : Bool)
    → ltb 0 r.failed ≡ b
    → (◌≡◌ {A = Result (Unit {0})}
        (if b
          then err (protocol (format "batch sync completed with {} failed entries" (r.failed ∷ [])))
          else ok tt)
        (ok tt))
      ↔ (r.failed ≡ 0)
finished r true h = (λ e. cc e, λ e. absurd (ground arith))
finished r false h = (λ e. ground arith, λ e. refl)

module _ {Command : Type 0} (args : Args Command) where
  result_of_none : (r : BatchRunReport) → (result_of args r ≡ ok tt) ↔ (r.failed ≡ 0)
  unfolding result_of
  result_of_none r = finished r (ltb 0 r.failed) refl

  module _ (formats : Formats) (path : List Char) (specs : List BatchSyncSpec)
      (attempts : ℕ → ℕ → Attempt) (clocks : ℕ → ℕ → ℕ) where
    -- Where the arguments of the batch mode are accepted and the manifest is loaded, and the entries of the
    -- manifest run with the options of the arguments, in whatever order they complete, until none is in flight:
    -- the batch mode succeeds exactly if every entry succeeds, by its own attempts.
    pub batch_mode_iff :
        {n : ℕ} {s : Running}
        (run_batch_sync : List BatchSyncSpec → BatchRuntimeOptions → BatchRunReport)
        → check_args args ≡ ok path
        → load_manifest formats path args.batch_format ≡ ok specs
        → Runs (options_of args) attempts clocks (start specs (options_of args)) n s
        → s.in_flight ≡ []
        → run_batch_sync specs (options_of args) ≡ report s.results
        → (run_batch_mode args formats run_batch_sync ≡ ok tt)
          ↔ AllSucceed (in_order (options_of args) attempts clocks specs)
    unfolding run_batch_mode
    batch_mode_iff {n} {s} run_batch_sync checked loaded runs ended same =
        let entries = in_order (options_of args) attempts clocks specs in
        let outcome = result_of_none (run_batch_sync specs (options_of args)) in
        let failed : (run_batch_sync specs (options_of args)).failed ≡ count_failures entries =
          ap (λ (r : BatchRunReport). r.failed)
            (same ∙ batch_report (options_of args) attempts clocks specs runs ended) in
        rw (checked, loaded)
          (
            λ e. no_failures entries (sym failed ∙ outcome.0 e),
            λ p. outcome.1 (failed ∙ all_succeed entries p),
          )
