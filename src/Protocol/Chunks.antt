-- ===== src/Protocol/Chunks.antt =====
-- src/protocol/mod.rs: the parallel strategy and the chunks, against one plain pass.
use mathlib.Core.List.{map-append}
use rsqlite_rsync.Base.{
  ℕ, ◌⊎◌, inl, inr, length-drop, zero, suc, ◌+◌, ◌≤◌, ◌≡◌, refl, sym, ap, ◌∙◌, List, [], ◌∷◌, ◌++◌,
  map, length, take, drop, take-append-drop, enumerate, flatten_options, Option, none, some, arith,
  Bool-cases,
}
use rsqlite_rsync.Error.{Result, ok, err, panic, and_then, collect}
use rsqlite_rsync.Tuning.{SyncTuning, should_parallelize}
use rsqlite_rsync.Protocol.{Rayon, compute_with_parallelism, map_tuned, chunked}

module _ {A : Type 0} where
  short : (n : ℕ) (xs : List A) → (length (take n xs) ≡ n) ⊎ (drop n xs ≡ [])
  short zero xs = inl refl
  short (suc n) [] = inr refl
  short (suc n) (x ∷ xs) = elim (short n xs) [ inl e ↦ inl (ap suc e) | inr e ↦ inr e ]

  length-drop_le :
      (n : ℕ) (x : A) (xs : List A) (fuel : ℕ)
      → 1 ≤ n
      → length xs ≤ fuel
      → length (drop n (x ∷ xs)) ≤ fuel
  length-drop_le zero x xs fuel h k = elim h [ ]
  length-drop_le (suc n) x xs fuel h k = omega (arith, length-drop n xs)

  enumerate-append :
      (s : ℕ) (xs ys : List A)
      → enumerate s (xs ++ ys) ≡ enumerate s xs ++ enumerate (s + length xs) ys
  enumerate-append s [] ys = ap (λ (k : ℕ). enumerate k ys) {x = s} {y = s + 0} (omega arith)
  enumerate-append s (x ∷ xs) ys = ap (◌∷◌ (s, x)) (
      enumerate-append (suc s) xs ys
      ∙ ap (λ (k : ℕ). enumerate (suc s) xs ++ enumerate k ys) {x = suc s + length xs}
          {y = s + suc (length xs)} (omega arith))

  flatten_options-append :
      (xs ys : List (Option A))
      → flatten_options (xs ++ ys) ≡ flatten_options xs ++ flatten_options ys
  flatten_options-append [] ys = refl
  flatten_options-append (none ∷ xs) ys = flatten_options-append xs ys
  flatten_options-append (some x ∷ xs) ys = ap (◌∷◌ x) (flatten_options-append xs ys)

  -- The outcome of two parts, one after the other.
  abbrev pub joined : Result (List A) → Result (List A) → Result (List A)
  joined r t = and_then r (λ a. and_then t (λ b. ok (a ++ b)))

  joined-nil : (t : Result (List A)) → t ≡ joined (ok []) t
  joined-nil (ok b) = refl
  joined-nil (err e) = refl
  joined-nil panic = refl

  cons-joined :
      (x : A) (r t : Result (List A))
      → and_then (joined r t) (λ a. ok (x ∷ a)) ≡ joined (and_then r (λ a. ok (x ∷ a))) t
  cons-joined x (ok a) (ok b) = refl
  cons-joined x (ok a) (err e) = refl
  cons-joined x (ok a) panic = refl
  cons-joined x (err e) t = refl
  cons-joined x panic t = refl

  collect-append : (xs ys : List (Result A)) → collect (xs ++ ys) ≡ joined (collect xs) (collect ys)
  collect-append [] ys = joined-nil (collect ys)
  collect-append (ok x ∷ xs) ys =
      rw (collect-append xs ys) (cons-joined x (collect xs) (collect ys))
  collect-append (err e ∷ xs) ys = refl
  collect-append (panic ∷ xs) ys = refl

module _ {A B : Type 0} where
  -- Both branches collect the same results.
  pub map_tuned_lem :
      (rayon : Rayon) (tuning : SyncTuning) (n : ℕ) (f : A → Result B) (xs : List A)
      → map_tuned rayon tuning n f xs ≡ collect (map f xs)
  unfolding map_tuned compute_with_parallelism
  map_tuned_lem rayon tuning n f xs = elim (Bool-cases (should_parallelize tuning n)) [
    | inl par ↦ rw (par, rayon.par_map_lem) refl
    | inr ser ↦ rw ser refl
  ]

  -- A way to process a list from a position that may be cut anywhere.
  pub record Splits (spec : ℕ → List A → Result (List B)) : Type 0 where
    pub at_nil : (s : ℕ) → spec s [] ≡ ok []
    pub at_append :
        (s : ℕ) (xs ys : List A) → spec s (xs ++ ys) ≡ joined (spec s xs) (spec (s + length xs) ys)

  -- Chunks of any size give what the whole list gives.
  module _ (spec : ℕ → List A → Result (List B)) (f : ℕ → List A → Result (List B)) (size : ℕ) where
    shift :
        Splits spec
        → (s : ℕ) (xs : List A)
        → spec (s + size) (drop size xs) ≡ spec (s + length (take size xs)) (drop size xs)
    shift sp s xs = elim (short size xs) [
      | inl e ↦ rw e refl
      | inr e ↦ rw e (sp.at_nil (s + size) ∙ sym (sp.at_nil (s + length (take size xs))))
    ]

    pub chunked_lem :
        Splits spec
        → ((s : ℕ) (xs : List A) → f s xs ≡ spec s xs)
        → 1 ≤ size
        → (fuel s : ℕ) (xs : List A) → length xs ≤ fuel
        → chunked f size fuel s xs ≡ spec s xs
    unfolding chunked
    chunked_lem sp same pos zero s [] h = sym (sp.at_nil s)
    chunked_lem sp same pos zero s (x ∷ xs) h = elim h [ ]
    chunked_lem sp same pos (suc fuel) s [] h = sym (sp.at_nil s)
    chunked_lem sp same pos (suc fuel) s (x ∷ xs) h =
        rw
          (
            same s (take size (x ∷ xs)),
            chunked_lem sp same pos fuel (s + size) (drop size (x ∷ xs))
                (length-drop_le size x xs fuel pos (omega arith)),
            shift sp s (x ∷ xs),
          )
          (sym (sp.at_append s (take size (x ∷ xs)) (drop size (x ∷ xs)))
            ∙ ap (spec s) (take-append-drop size (x ∷ xs)))

  -- `items.map(f).collect()`.
  pub map-Splits : (f : A → Result B) → Splits (λ s xs. collect (map f xs))
  map-Splits f = record {
    at_nil = λ s. refl;
    at_append = λ s xs ys. ap collect (map-append f xs ys) ∙ collect-append (map f xs) (map f ys);
  }

-- `items.enumerate().filter_map(f).collect()`.
module _ {A B : Type 0} (f : ℕ × A → Result (Option B)) where
  abbrev pub filter_enumerated : ℕ → List A → Result (List B)
  filter_enumerated s xs =
      and_then (collect (map f (enumerate s xs))) λ found. ok (flatten_options found)

  flatten-joined :
      (r t : Result (List (Option B)))
      → and_then (joined r t) (λ found. ok (flatten_options found))
        ≡ joined
            (and_then r (λ found. ok (flatten_options found)))
            (and_then t (λ found. ok (flatten_options found)))
  flatten-joined (ok a) (ok b) = ap ok (flatten_options-append a b)
  flatten-joined (ok a) (err e) = refl
  flatten-joined (ok a) panic = refl
  flatten-joined (err e) t = refl
  flatten-joined panic t = refl

  pub filter_enumerated-Splits : Splits filter_enumerated
  filter_enumerated-Splits = record {
    at_nil = λ s. refl;
    at_append = λ s xs ys.
        rw
          (
            enumerate-append s xs ys,
            map-append f (enumerate s xs) (enumerate (s + length xs) ys),
            collect-append (map f (enumerate s xs)) (map f (enumerate (s + length xs) ys)),
          )
          (flatten-joined _ _);
  }
