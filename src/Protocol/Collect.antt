-- ===== src/Protocol/Collect.antt =====
-- Lists over a range of numbers: collected, sliced and looked up.
use rsqlite_rsync.Base.{
  ℕ, zero, suc, ◌+◌, ◌-◌, ◌≤◌, ◌<◌, ◌≡◌, refl, ap, ◌∙◌, ◌∷◌, map, length, take, drop, count_up,
  slice, get_elem?, some, le→leb, arith,
}
use rsqlite_rsync.Error.{Result, ok, collect}

module _ {B : Type 0} where
  pub collect-count_up :
      (f : ℕ → Result B) (g : ℕ → B) (from n : ℕ)
      → ((p : ℕ) → from ≤ p → p < from + n → f p ≡ ok (g p))
      → collect (map f (count_up from n)) ≡ ok (map g (count_up from n))
  collect-count_up f g from zero same = refl
  collect-count_up f g from (suc n) same =
      rw
        (
          same from (omega arith) (omega arith),
          collect-count_up f g (suc from) n (λ p h k. same p (omega arith) (omega arith)),
        )
        refl

  pub length-map-count_up : (g : ℕ → B) (from n : ℕ) → length (map g (count_up from n)) ≡ n
  length-map-count_up g from zero = refl
  length-map-count_up g from (suc n) = ap suc (length-map-count_up g (suc from) n)

  drop-count_up :
      (g : ℕ → B) (from n a : ℕ)
      → a ≤ n
      → drop a (map g (count_up from n)) ≡ map g (count_up (from + a) (n - a))
  drop-count_up g from n zero h =
      ap (λ (k : ℕ). map g (count_up k n)) {x = from} {y = from + 0} (omega arith)
      ∙ ap (λ (k : ℕ). map g (count_up (from + 0) k)) {x = n} {y = n - 0} (omega arith)
  drop-count_up g from zero (suc a) h = elim h [ ]
  drop-count_up g from (suc n) (suc a) h =
      drop-count_up g (suc from) n a (omega arith)
      ∙ ap (λ (k : ℕ). map g (count_up k (n - a))) {x = suc from + a} {y = from + suc a}
          (omega arith)
      ∙ ap (λ (k : ℕ). map g (count_up (from + suc a) k)) {x = n - a} {y = suc n - suc a}
          (omega arith)

  take-count_up :
      (g : ℕ → B) (from n m : ℕ)
      → m ≤ n
      → take m (map g (count_up from n)) ≡ map g (count_up from m)
  take-count_up g from n zero h = refl
  take-count_up g from zero (suc m) h = elim h [ ]
  take-count_up g from (suc n) (suc m) h =
      ap (◌∷◌ (g from)) (take-count_up g (suc from) n m (omega arith))

  -- A slice of a list over `0..n` is the list over the slice's positions.
  pub slice-count_up :
      (g : ℕ → B) (n a m : ℕ)
      → a + m ≤ n
      → slice (map g (count_up 0 n)) a m ≡ some (map g (count_up a m))
  unfolding slice
  slice-count_up g n a m h =
      rw (length-map-count_up g 0 n, le→leb (a + m) n h, drop-count_up g 0 n a (omega arith))
        (ap some (
          take-count_up g (0 + a) (n - a) m (omega arith)
          ∙ ap (λ (k : ℕ). map g (count_up k m)) {x = 0 + a} {y = a} (omega arith)))

  pub get_elem?-count_up :
      (g : ℕ → B) (from n i : ℕ)
      → i < n
      → get_elem? (map g (count_up from n)) i ≡ some (g (from + i))
  get_elem?-count_up g from zero i h = elim h [ ]
  get_elem?-count_up g from (suc n) zero h =
      ap (λ (k : ℕ). some (g k)) {x = from} {y = from + 0} (omega arith)
  get_elem?-count_up g from (suc n) (suc i) h =
      get_elem?-count_up g (suc from) n i (omega arith)
      ∙ ap (λ (k : ℕ). some (g k)) {x = suc from + i} {y = from + suc i} (omega arith)
