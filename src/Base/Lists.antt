-- ===== src/Base/Lists.antt =====
-- Lists measured and indexed by native numbers, ranges, and byte slices.
use Prim.Native.Nat.{ℕ, zero, suc, ◌+◌, ◌-◌, min}
use mathlib.Core.Path.{◌≡◌, refl, ap}
use mathlib.Core.List.{List, [], ◌∷◌, ◌++◌}
use mathlib.Core.Bool.{Bool, true, false, ◌||◌}
use mathlib.Core.Option.{Option, none, some}
use native.Mathlib.Omega.{arith}
use rsqlite_rsync.Base.Tests.{leb, ◌==◌, if◌then◌else◌}

module _ {ℓ} {A : Type ℓ} where
  abbrev pub length : List A → ℕ
  length [] = 0
  length (x ∷ xs) = suc (length xs)

  abbrev pub get_elem? : List A → ℕ → Option A
  get_elem? [] i = none
  get_elem? (x ∷ xs) zero = some x
  get_elem? (x ∷ xs) (suc i) = get_elem? xs i

  abbrev pub take : ℕ → List A → List A
  take zero xs = []
  take (suc n) [] = []
  take (suc n) (x ∷ xs) = x ∷ take n xs

  abbrev pub drop : ℕ → List A → List A
  drop zero xs = xs
  drop (suc n) [] = []
  drop (suc n) (x ∷ xs) = drop n xs

  pub length-append : (xs ys : List A) → length (xs ++ ys) ≡ length xs + length ys
  length-append [] ys = omega arith
  length-append (x ∷ xs) ys = omega (arith, length-append xs ys)

  pub take-append-drop : (n : ℕ) (xs : List A) → take n xs ++ drop n xs ≡ xs
  take-append-drop zero xs = refl
  take-append-drop (suc n) [] = refl
  take-append-drop (suc n) (x ∷ xs) = ap (◌∷◌ x) (take-append-drop n xs)

  pub length-take : (n : ℕ) (xs : List A) → length (take n xs) ≡ min n (length xs)
  length-take zero xs = omega arith
  length-take (suc n) [] = omega arith
  length-take (suc n) (x ∷ xs) = omega (arith, length-take n xs)

  pub length-drop : (n : ℕ) (xs : List A) → length (drop n xs) ≡ length xs - n
  length-drop zero xs = omega arith
  length-drop (suc n) [] = omega arith
  length-drop (suc n) (x ∷ xs) = omega (arith, length-drop n xs)

  -- The list with each element beside its position, counted from `start`.
  abbrev pub enumerate : ℕ → List A → List (ℕ × A)
  enumerate start [] = []
  enumerate start (x ∷ xs) = (start, x) ∷ enumerate (suc start) xs

  -- The values that are there.
  abbrev pub flatten_options : List (Option A) → List A
  flatten_options [] = []
  flatten_options (none ∷ xs) = flatten_options xs
  flatten_options (some x ∷ xs) = x ∷ flatten_options xs

  -- `&s[from..from + n]`; `none` is the panic of an index out of range.
  unfoldable pub slice : List A → ℕ → ℕ → Option (List A)
  slice xs from n = if leb (from + n) (length xs) then some (take n (drop from xs)) else none

-- `from, from + 1, …`, `n` of them.
abbrev pub count_up : ℕ → ℕ → List ℕ
count_up from zero = []
count_up from (suc n) = from ∷ count_up (suc from) n

-- `first..=last`.
abbrev pub range_inclusive : ℕ → ℕ → List ℕ
range_inclusive first last = count_up first (suc last - first)

pub length-count_up : (from n : ℕ) → length (count_up from n) ≡ n
length-count_up from zero = refl
length-count_up from (suc n) = ap suc (length-count_up (suc from) n)

-- A `HashSet<u32>`, as a list.
abbrev pub contains : List ℕ → ℕ → Bool
contains [] a = false
contains (x ∷ xs) a = x == a || contains xs a

abbrev pub insert_if_absent : Bool → ℕ → List ℕ → List ℕ
insert_if_absent true a xs = xs
insert_if_absent false a xs = a ∷ xs

-- `xs.iter().copied().collect::<HashSet<u32>>()`.
abbrev pub collect_set : List ℕ → List ℕ
collect_set [] = []
collect_set (x ∷ xs) = let rest = collect_set xs in insert_if_absent (contains rest x) x rest
