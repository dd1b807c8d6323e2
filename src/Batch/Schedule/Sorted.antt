-- ===== src/Batch/Schedule/Sorted.antt =====
-- src/batch.rs: the sorted results do not depend on the order in which the entries completed.
use mathlib.Core.List.{append_assoc}
use mathlib.Core.Option.{some-injective}
use rsqlite_rsync.Base.{
  get_elem?, length, length-append, subst, some, ℕ, suc, ◌<◌, ◌≡◌, refl, ap, sym, ◌∙◌, List, [],
  ◌∷◌, ◌++◌, arith,
}
use rsqlite_rsync.Batch.Schedule.{BatchItemResult, insert, sort_by_index}

-- Two results that agree wherever their places do.
abbrev pub Agree : BatchItemResult → BatchItemResult → Type 0
Agree a b = a.index ≡ b.index → a ≡ b

pub insert_comm :
    (a b : BatchItemResult) (xs : List BatchItemResult)
    → Agree a b
    → insert a (insert b xs) ≡ insert b (insert a xs)
insert_comm a b [] same = grind (arith, same)
insert_comm a b (x ∷ xs) same = grind (arith, same, insert_comm a b xs same)

module _ {κ} (P : BatchItemResult → Type κ) where
  abbrev pub All : List BatchItemResult → Type κ
  All [] = Unit
  All (a ∷ xs) = P a × All xs

  pub All-append : (xs ys : List BatchItemResult) → All xs → All ys → All (xs ++ ys)
  All-append [] ys p q = q
  All-append (x ∷ xs) ys (px, p) q = (px, All-append xs ys p q)

  pub All-split : (xs ys : List BatchItemResult) → All (xs ++ ys) → All xs × All ys
  All-split [] ys p = (tt, p)
  All-split (x ∷ xs) ys (px, p) = let rest = All-split xs ys p in ((px, rest.0), rest.1)

  module _ (agree : (a b : BatchItemResult) → P a → P b → Agree a b) where
    -- An item may be sorted in from any place.
    pub sort-middle :
        (xs : List BatchItemResult) (a : BatchItemResult) (ys : List BatchItemResult)
        → All xs
        → P a
        → sort_by_index (xs ++ a ∷ ys) ≡ insert a (sort_by_index (xs ++ ys))
    unfolding sort_by_index
    sort-middle [] a ys p pa = refl
    sort-middle (x ∷ xs) a ys (px, p) pa =
        ap (insert x) (sort-middle xs a ys p pa)
        ∙ insert_comm x a (sort_by_index (xs ++ ys)) (agree x a px pa)

    pub sort-move :
        (xs zs : List BatchItemResult) (a : BatchItemResult) (ys : List BatchItemResult)
        → All (xs ++ zs)
        → P a
        → sort_by_index ((xs ++ zs) ++ a ∷ ys) ≡ sort_by_index (xs ++ a ∷ (zs ++ ys))
    sort-move xs zs a ys p pa =
        sort-middle (xs ++ zs) a ys p pa
        ∙ ap (λ (l : List BatchItemResult). insert a (sort_by_index l)) (append_assoc xs zs ys)
        ∙ sym (sort-middle xs a (zs ++ ys) (All-split xs zs p).0 pa)

-- The places of the items count up.
abbrev pub Ascending : ℕ → List BatchItemResult → Type 0
Ascending k [] = Unit
Ascending k (a ∷ xs) = (a.index ≡ k) × Ascending (suc k) xs

insert_first :
    (k : ℕ) (a : BatchItemResult) (xs : List BatchItemResult)
    → a.index < k
    → Ascending k xs
    → insert a xs ≡ a ∷ xs
insert_first k a [] h up = refl
insert_first k a (x ∷ xs) h up = ground arith

pub sort-Ascending : (k : ℕ) (xs : List BatchItemResult) → Ascending k xs → sort_by_index xs ≡ xs
unfolding sort_by_index
sort-Ascending k [] up = refl
sort-Ascending k (x ∷ xs) (e, up) =
    ap (insert x) (sort-Ascending (suc k) xs up) ∙ insert_first (suc k) x xs (omega arith) up

-- The item that a list has at its own place.
abbrev pub AtPlace : List BatchItemResult → BatchItemResult → Type 0
AtPlace items a = get_elem? items a.index ≡ some a

pub AtPlace-Agree :
    (items : List BatchItemResult) (a b : BatchItemResult)
    → AtPlace items a
    → AtPlace items b
    → Agree a b
AtPlace-Agree items a b p q e = some-injective a b (sym p ∙ ap (get_elem? items) e ∙ q)

get_elem?-middle :
    (pre : List BatchItemResult) (a : BatchItemResult) (xs : List BatchItemResult)
    → get_elem? (pre ++ a ∷ xs) (length pre) ≡ some a
get_elem?-middle [] a xs = refl
get_elem?-middle (x ∷ pre) a xs = get_elem?-middle pre a xs

places_from :
    (pre xs : List BatchItemResult) → Ascending (length pre) xs → All (AtPlace (pre ++ xs)) xs
places_from pre [] up = tt
places_from pre (x ∷ xs) (e, up) = (
  ap (get_elem? (pre ++ x ∷ xs)) e ∙ get_elem?-middle pre x xs,
  subst (λ l. All (AtPlace l) xs) (append_assoc pre (x ∷ []) xs)
      (places_from (pre ++ x ∷ []) xs
        (subst (λ k. Ascending k xs) (omega (arith, length-append pre (x ∷ []))) up)),
)

pub All-AtPlace : (xs : List BatchItemResult) → Ascending 0 xs → All (AtPlace xs) xs
All-AtPlace xs up = places_from [] xs up
