-- ===== src/Batch/Schedule.antt =====
-- src/batch.rs: `run_batch_sync`, the entries of a batch in flight, and the report of the batch.
pub mod Sorted
pub mod Report
use Prim.Native.Char.{Char}
use rsqlite_rsync.Base.{
  ℕ, zero, suc, ◌-◌, List, [], ◌∷◌, ◌++◌, Option, none, some, Bool, true, false, ◌≡◌, length,
  enumerate, max, ltb, if◌then◌else◌,
}
use rsqlite_rsync.Error.{SyncError}
use rsqlite_rsync.KvText.Chars.{chars}
use rsqlite_rsync.Batch.{BatchSyncSpec, BatchRuntimeOptions, Attempt, ItemOutcome, run_one}

-- `identifier`: the name, or the two ends.
abbrev named : Option (List Char) → List Char → List Char
named none d = d
named (some name) d = name

unfoldable pub identifier : BatchSyncSpec → List Char
unfolding chars
identifier spec = named spec.name (spec.origin ++ (chars " -> " ++ spec.replica))

pub record BatchItemResult : Type 0 where
  pub index : ℕ
  pub id : List Char
  pub error : Option (ℕ × Option SyncError)

abbrev pub is_success : BatchItemResult → Bool
is_success item = elim item.error [ none ↦ true | some e ↦ false ]

pub record BatchRunReport : Type 0 where
  pub total : ℕ
  pub succeeded : ℕ
  pub failed : ℕ
  pub results : List BatchItemResult

unfoldable pub any_failed : BatchRunReport → Bool
any_failed report = ltb 0 report.failed

-- An entry with its place in the batch.
abbrev pub Entry : Type 0
Entry = ℕ × BatchSyncSpec

-- The local variables of `run_batch_sync`.
pub record Running : Type 0 where
  pub pending : List Entry
  pub in_flight : List Entry
  pub results : List BatchItemResult

-- `pending.next()`, and the future of that entry pushed.
abbrev pub start_one : Running → List Entry → Running
start_one s [] = s
start_one s (e ∷ rest) = record s { pending = rest; in_flight = s.in_flight ++ e ∷ [] }

abbrev pub start_next : Running → Running
start_next s = start_one s s.pending

-- The loop that starts the first entries, with the places left.
unfoldable pub fill : ℕ → Running → Running
fill zero s = s
fill (suc places) s = fill places (start_next s)

unfoldable pub start : List BatchSyncSpec → BatchRuntimeOptions → Running
unfolding fill
start specs options =
    fill (max options.jobs 1) (record { pending = enumerate 0 specs; in_flight = []; results = [] })

-- `sort_by_key(|item| item.index)`: a stable sort.
abbrev pub insert : BatchItemResult → List BatchItemResult → List BatchItemResult
insert a [] = a ∷ []
insert a (b ∷ rest) =
    let later = insert a rest in if ltb b.index a.index then b ∷ later else a ∷ b ∷ rest

unfoldable pub sort_by_index : List BatchItemResult → List BatchItemResult
sort_by_index [] = []
sort_by_index (a ∷ rest) = insert a (sort_by_index rest)

abbrev pub count_successes : List BatchItemResult → ℕ
count_successes [] = 0
count_successes (a ∷ rest) =
    let later = count_successes rest in if is_success a then suc later else later

-- The report, once nothing is in flight.
unfoldable pub report : List BatchItemResult → BatchRunReport
unfolding sort_by_index
report results =
    let sorted = sort_by_index results in
    record {
      total = length sorted;
      succeeded = count_successes sorted;
      failed = length sorted - count_successes sorted;
      results = sorted;
    }

-- What the attempts of the entry at each place do, and the clock readings after them.
module _ (options : BatchRuntimeOptions) (attempts : ℕ → ℕ → Attempt) (clocks : ℕ → ℕ → ℕ) where
  unfoldable pub item_result : Entry → BatchItemResult
  unfolding identifier run_one
  item_result (index, spec) = record {
    index = index;
    id = identifier spec;
    error = (run_one spec options (attempts index) (clocks index)).error;
  }

  -- The body of the loop for the entry `e` that completes, with the others in flight.
  unfoldable pub complete : Running → Entry → List Entry → Running
  unfolding item_result
  complete s e others =
      start_next (record s { in_flight = others; results = s.results ++ item_result e ∷ [] })

  -- `in_flight.next()` gives any entry in flight.
  pub data Completes (s : Running) : Running → Type 0 where
    completes :
        (before : List Entry) (e : Entry) (after : List Entry)
        → s.in_flight ≡ before ++ e ∷ after
        → Completes s (complete s e (before ++ after))

  -- A run of the loop, with the number of entries that have completed.
  pub data Runs (s : Running) : ℕ → Running → Type 0 where
    begun : Runs s 0 s
    then_completes : {n : ℕ} {t u : Running} → Runs s n t → Completes t u → Runs s (suc n) u
