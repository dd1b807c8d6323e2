-- ===== src/Batch/Schedule/Report.antt =====
-- src/batch.rs: every order in which the entries of a batch complete gives the same report.
use mathlib.Core.List.{append_assoc, map-append, append-nil}
use mathlib.Core.Path.{◌≡⟨◌⟩◌, ◌∎}
use rsqlite_rsync.Base.{
  ℕ, zero, suc, ◌+◌, ◌-◌, ◌≤◌, ◌<◌, ◌≡◌, refl, ap, sym, subst, ◌∙◌, ◌⊎◌, inl, inr, List, [], ◌∷◌,
  ◌++◌, map, enumerate, length, length-append, max, if◌then◌else◌, arith,
}
use rsqlite_rsync.Batch.{BatchSyncSpec, BatchRuntimeOptions, Attempt}
use rsqlite_rsync.Batch.Schedule.{
  BatchItemResult, Entry, Running, start_one, start_next, fill, start, sort_by_index,
  count_successes, is_success, report, item_result, complete, completes, Runs, begun,
  then_completes,
}
use rsqlite_rsync.Batch.Schedule.Sorted.{
  All, All-append, All-split, sort-move, Ascending, sort-Ascending, AtPlace, AtPlace-Agree,
  All-AtPlace,
}

abbrev pub count_failures : List BatchItemResult → ℕ
count_failures [] = 0
count_failures (a ∷ rest) = (if is_success a then 0 else 1) + count_failures rest

total_counts : (xs : List BatchItemResult) → count_successes xs + count_failures xs ≡ length xs
total_counts [] = refl
total_counts (y ∷ ys) = ground (arith, total_counts ys)

counts : (xs : List BatchItemResult) → length xs - count_successes xs ≡ count_failures xs
counts xs = omega (arith, total_counts xs)

module _ (options : BatchRuntimeOptions) (attempts : ℕ → ℕ → Attempt) (clocks : ℕ → ℕ → ℕ) where
  abbrev item : Entry → BatchItemResult
  item = item_result options attempts clocks

  -- The results of the entries one after another.
  abbrev pub in_order : List BatchSyncSpec → List BatchItemResult
  in_order specs = map item (enumerate 0 specs)

  items-Ascending :
      (k : ℕ) (specs : List BatchSyncSpec) → Ascending k (map item (enumerate k specs))
  unfolding item_result
  items-Ascending k [] = tt
  items-Ascending k (x ∷ specs) = (refl, items-Ascending (suc k) specs)

  -- What has completed, then what will.
  abbrev all_items : Running → List BatchItemResult
  all_items s = s.results ++ (map item s.in_flight ++ map item s.pending)

  start_one-items :
      (s : Running) (p : List Entry) → s.pending ≡ p → all_items (start_one s p) ≡ all_items s
  start_one-items s [] h = refl
  start_one-items s (e ∷ rest) h =
      ap (λ (l : List BatchItemResult). s.results ++ l)
        (map item (s.in_flight ++ e ∷ []) ++ map item rest
          ≡⟨ ap (λ (l : List BatchItemResult). l ++ map item rest)
              (map-append item s.in_flight (e ∷ [])) ⟩
            (map item s.in_flight ++ item e ∷ []) ++ map item rest
          ≡⟨ append_assoc (map item s.in_flight) (item e ∷ []) (map item rest) ⟩
            map item s.in_flight ++ map item (e ∷ rest)
          ≡⟨ ap (λ (l : List Entry). map item s.in_flight ++ map item l) (sym h) ⟩
            map item s.in_flight ++ map item s.pending ∎)

  start_next-items : (s : Running) → all_items (start_next s) ≡ all_items s
  start_next-items s = start_one-items s s.pending refl

  fill-items : (places : ℕ) (s : Running) → all_items (fill places s) ≡ all_items s
  unfolding fill
  fill-items zero s = refl
  fill-items (suc places) s = fill-items places (start_next s) ∙ start_next-items s

  module _ (expected : List BatchItemResult) (up : Ascending 0 expected) where
    -- Sorting what has completed and what will gives the expected results.
    abbrev Sorts : List BatchItemResult → Type 0
    Sorts xs = All (AtPlace expected) xs × (sort_by_index xs ≡ expected)

    Sorts-move :
        (xs zs : List BatchItemResult) (a : BatchItemResult) (ys : List BatchItemResult)
        → Sorts (xs ++ (zs ++ a ∷ ys))
        → Sorts (xs ++ a ∷ (zs ++ ys))
    Sorts-move xs zs a ys (p, e) =
        let p1 = All-split (AtPlace expected) xs (zs ++ a ∷ ys) p in
        let p2 = All-split (AtPlace expected) zs (a ∷ ys) p1.1 in
        (
          All-append (AtPlace expected) xs (a ∷ (zs ++ ys)) p1.0
              (p2.1.0, All-append (AtPlace expected) zs ys p2.0 p2.1.1),
          sym (
                sort-move (AtPlace expected) (AtPlace-Agree expected) xs zs a ys
                  (All-append (AtPlace expected) xs zs p1.0 p2.0) p2.1.0)
              ∙ ap sort_by_index (append_assoc xs zs (a ∷ ys))
              ∙ e,
        )

    complete-Sorts :
        (s : Running) (before : List Entry) (e : Entry) (after : List Entry)
        → s.in_flight ≡ before ++ e ∷ after
        → Sorts (all_items s)
        → Sorts (all_items (complete options attempts clocks s e (before ++ after)))
    unfolding complete
    complete-Sorts s before e after h ok =
        subst Sorts
          (sym (
            start_next-items
              (record s { in_flight = before ++ after; results = s.results ++ item e ∷ [] })
            ∙ append_assoc s.results (item e ∷ []) _
            ∙ ap (λ (l : List BatchItemResult). s.results ++ item e ∷ l)
                (ap (λ (l : List BatchItemResult). l ++ map item s.pending)
                    (map-append item before after)
                  ∙ append_assoc (map item before) (map item after) (map item s.pending))))
          (Sorts-move s.results (map item before) (item e) (map item after ++ map item s.pending) (
            subst Sorts
              (ap (λ (l : List BatchItemResult). s.results ++ l)
                (ap (λ (l : List Entry). map item l ++ map item s.pending) h
                  ∙ ap (λ (l : List BatchItemResult). l ++ map item s.pending)
                      (map-append item before (e ∷ after))
                  ∙ append_assoc (map item before) (map item (e ∷ after)) (map item s.pending)))
              ok))

    Runs-Sorts :
        {s t : Running} {n : ℕ}
        → Sorts (all_items s)
        → Runs options attempts clocks s n t
        → Sorts (all_items t)
    Runs-Sorts ok begun = ok
    Runs-Sorts ok (then_completes {t = t} runs (completes before e after h)) =
        complete-Sorts t before e after h (Runs-Sorts ok runs)

  -- What each step keeps: no more in flight than there may be, all places taken while entries wait,
  -- and every entry somewhere.
  abbrev Counts : ℕ → ℕ → ℕ → Running → Type 0
  Counts total places n s =
      (length s.in_flight ≤ places)
      × ((length s.pending ≡ 0) ⊎ (length s.in_flight ≡ places))
      × (length s.results ≡ n)
      × (n + length s.in_flight + length s.pending ≡ total)

  start_one-Counts :
      (total places n : ℕ) (s : Running) (p : List Entry)
      → s.pending ≡ p
      → length s.in_flight + 1 ≤ places
      → (length s.pending ≡ 0) ⊎ (length s.in_flight + 1 ≡ places)
      → length s.results ≡ n
      → n + length s.in_flight + length s.pending ≡ total
      → Counts total places n (start_one s p)
  start_one-Counts total places n s [] h a b c d = (omega arith, inl (ap length h), c, d)
  start_one-Counts total places n s (e ∷ rest) h a (inl b) c d = absurd (omega (arith, ap length h))
  start_one-Counts total places n s (e ∷ rest) h a (inr b) c d = (
    omega (arith, length-append s.in_flight (e ∷ [])),
    inr (omega (arith, length-append s.in_flight (e ∷ []))),
    c,
    omega (arith, ap length h, length-append s.in_flight (e ∷ [])),
  )

  complete-Counts :
      (total places n : ℕ) (s : Running) (before : List Entry) (e : Entry) (after : List Entry)
      → s.in_flight ≡ before ++ e ∷ after
      → Counts total places n s
      → Counts total places (suc n) (complete options attempts clocks s e (before ++ after))
  unfolding complete
  complete-Counts total places n s before e after h (a, b, c, d) =
      let l1 : length s.in_flight ≡ length before + suc (length after) =
        ap length h ∙ length-append before (e ∷ after) in
      let l2 : length (before ++ after) ≡ length before + length after =
        length-append before after in
      start_one-Counts total places (suc n) _ s.pending refl (omega arith) (room b l1 l2)
        (omega (arith, length-append s.results (item e ∷ []))) (omega arith)
    where
      room :
          (length s.pending ≡ 0) ⊎ (length s.in_flight ≡ places)
          → length s.in_flight ≡ length before + suc (length after)
          → length (before ++ after) ≡ length before + length after
          → (length s.pending ≡ 0) ⊎ (length (before ++ after) + 1 ≡ places)
      room (inl b) l1 l2 = inl b
      room (inr b) l1 l2 = inr (omega arith)

  Runs-Counts :
      (total places : ℕ) {s t : Running} {n : ℕ}
      → Counts total places 0 s
      → Runs options attempts clocks s n t
      → Counts total places n t
  Runs-Counts total places ok begun = ok
  Runs-Counts total places ok (then_completes {n = n} {t = t} runs (completes before e after h)) =
      complete-Counts total places n t before e after h (Runs-Counts total places ok runs)

  -- After `k` rounds of the first loop.
  abbrev Filled : ℕ → ℕ → Running → Type 0
  Filled total k s =
      (length s.in_flight ≤ k)
      × ((length s.pending ≡ 0) ⊎ (length s.in_flight ≡ k))
      × (length s.results ≡ 0)
      × (length s.in_flight + length s.pending ≡ total)

  start_one-Filled :
      (total k : ℕ) (s : Running) (p : List Entry)
      → s.pending ≡ p
      → Filled total k s
      → Filled total (suc k) (start_one s p)
  start_one-Filled total k s [] h (a, b, c, d) = (omega arith, inl (ap length h), c, d)
  start_one-Filled total k s (e ∷ rest) h (a, inl b, c, d) = absurd (omega (arith, ap length h))
  start_one-Filled total k s (e ∷ rest) h (a, inr b, c, d) = (
    omega (arith, length-append s.in_flight (e ∷ [])),
    inr (omega (arith, length-append s.in_flight (e ∷ []))),
    c,
    omega (arith, ap length h, length-append s.in_flight (e ∷ [])),
  )

  fill-Filled :
      (total places k : ℕ) (s : Running)
      → Filled total k s
      → Filled total (places + k) (fill places s)
  unfolding fill
  fill-Filled total zero k s ok = subst (λ m. Filled total m s) (omega arith) ok
  fill-Filled total (suc places) k s ok =
      subst (λ m. Filled total m (fill places (start_next s))) (omega arith)
        (fill-Filled total places (suc k) (start_next s)
          (start_one-Filled total k s s.pending refl ok))

  length-map : (f : Entry → BatchItemResult) (xs : List Entry) → length (map f xs) ≡ length xs
  length-map f [] = refl
  length-map f (x ∷ xs) = ap suc (length-map f xs)

  length-enumerate :
      (k : ℕ) (specs : List BatchSyncSpec) → length (enumerate k specs) ≡ length specs
  length-enumerate k [] = refl
  length-enumerate k (x ∷ specs) = ap suc (length-enumerate (suc k) specs)

  start-Counts :
      (specs : List BatchSyncSpec)
      → Counts (length specs) (max options.jobs 1) 0 (start specs options)
  unfolding start
  start-Counts specs =
      let f =
        fill-Filled (length specs) (max options.jobs 1) 0
          (record { pending = enumerate 0 specs; in_flight = []; results = [] })
          (omega arith, inr refl, refl, omega (arith, length-enumerate 0 specs)) in
      (omega (arith, f.0), full f.1, f.2, omega (arith, f.3))
    where
      full : {a b c : ℕ} → (a ≡ 0) ⊎ (b ≡ c + 0) → (a ≡ 0) ⊎ (b ≡ c)
      full (inl x) = inl x
      full (inr x) = inr (omega arith)

  module _ (specs : List BatchSyncSpec) {n : ℕ} {s : Running}
      (runs : Runs options attempts clocks (start specs options) n s) where
    -- At any moment of the run of a batch, in whatever order its entries complete, no more entries
    -- are in flight than there are jobs, or one where `jobs` is 0; no more entries have completed
    -- than the batch has, which bounds the length of the run; and while one has not, an entry is in
    -- flight, so the loop ends only after all of them.
    pub batch_bounds :
        (length s.in_flight ≤ max options.jobs 1)
        × (n ≤ length specs)
        × (n < length specs → 0 < length s.in_flight)
    batch_bounds =
        let (a, b, c, d) =
          Runs-Counts (length specs) (max options.jobs 1) (start-Counts specs) runs in
        (a, omega arith, waiting b d)
      where
        waiting :
            (length s.pending ≡ 0) ⊎ (length s.in_flight ≡ max options.jobs 1)
            → n + length s.in_flight + length s.pending ≡ length specs
            → n < length specs
            → 0 < length s.in_flight
        waiting (inl b) d h = omega arith
        waiting (inr b) d h = omega arith

    sorts_all : s.in_flight ≡ [] → sort_by_index s.results ≡ in_order specs
    unfolding start
    sorts_all h =
        let (a, b, c, d) =
          Runs-Counts (length specs) (max options.jobs 1) (start-Counts specs) runs in
        let none_left : s.pending ≡ [] = empty s.pending (nothing b (ap length h)) in
        let ok =
          Runs-Sorts (in_order specs) (items-Ascending 0 specs)
            (subst (Sorts (in_order specs) (items-Ascending 0 specs))
              (sym (
                fill-items (max options.jobs 1)
                  (record { pending = enumerate 0 specs; in_flight = []; results = [] })))
              (
                All-AtPlace (in_order specs) (items-Ascending 0 specs),
                sort-Ascending 0 (in_order specs) (items-Ascending 0 specs),
              ))
            runs in
        ap sort_by_index (sym (append-nil s.results))
        ∙ ap (λ (l : List BatchItemResult). sort_by_index (s.results ++ l))
            (sym (
              ap (λ (l : List Entry). map item l ++ map item s.pending) h
              ∙ ap (map item) none_left))
        ∙ ok.1
      where
        empty : (l : List Entry) → length l ≡ 0 → l ≡ []
        empty [] e = refl
        empty (x ∷ l) e = absurd (omega arith)

        nothing :
            (length s.pending ≡ 0) ⊎ (length s.in_flight ≡ max options.jobs 1)
            → length s.in_flight ≡ 0
            → length s.pending ≡ 0
        nothing (inl b) e = b
        nothing (inr b) e = absurd (omega arith)

    -- In whatever order the entries of a batch complete and however many run at once, once none is
    -- in flight the report has the result of every entry in the order of the batch, the number of
    -- entries, and how many of them failed and succeeded.
    pub batch_report :
        s.in_flight ≡ []
        → report s.results ≡ record {
          total = length specs;
          succeeded = length specs - count_failures (in_order specs);
          failed = count_failures (in_order specs);
          results = in_order specs;
        }
    unfolding report
    batch_report h =
        let sorted = sorts_all h in
        let total : length (in_order specs) ≡ length specs =
          length-map item (enumerate 0 specs) ∙ length-enumerate 0 specs in
        rw sorted (cc (total, counts (in_order specs), failures))
      where
        failures : count_successes (in_order specs) ≡ length specs - count_failures (in_order specs)
        failures = omega (
          arith,
          total_counts (in_order specs),
          length-map item (enumerate 0 specs),
          length-enumerate 0 specs,
        )
