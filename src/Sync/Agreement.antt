-- ===== src/Sync/Agreement.antt =====
-- What equal hashes say of the pages, as long as the digests of this run do not collide.
use mathlib.Core.List.{flatten}
use mathlib.Core.Path.{ap₂}
use native.Mathlib.Decide.{ℕ_discrete}
use rsqlite_rsync.Base.{
  ℕ, zero, suc, ◌+◌, ◌-◌, ◌*◌, ◌≤◌, ◌<◌, ◌≡◌, refl, sym, ap, ◌∙◌, List, [], ◌∷◌, ◌++◌, map, length,
  length-append, take, drop, count_up, bytes_eq, bytes_eq→eq, true, arith,
}
use rsqlite_rsync.Db.Pages.{take-append_length, drop-append_beyond, drop_eq}
use rsqlite_rsync.Sync.View.{
  Databases, IsSized, pages_in, digest_of, origin_page, replica_page, origin_digests,
  replica_digests, origin_group_hash, replica_group_hash, replica_groups,
}

-- The digests have 32 bytes, and those compared in this run tell the contents apart.
pub record NoCollision (v : Databases) : Type 0 where
  pub digest_length : (content : List ℕ) → length (digest_of v content) ≡ 32
  pub page_apart :
      (p : ℕ)
      → 1 ≤ p
      → p ≤ v.replica_pages
      → digest_of v (origin_page v p) ≡ digest_of v (replica_page v p)
      → origin_page v p ≡ replica_page v p
  pub group_apart :
      (g : ℕ)
      → g < replica_groups v
      → origin_group_hash v g ≡ replica_group_hash v g
      → flatten (origin_digests v g) ≡ flatten (replica_digests v g)

abbrev AllLength : List (List ℕ) → Type 0
AllLength [] = Unit {0}
AllLength (x ∷ xs) = (length x ≡ 32) × AllLength xs

take_of : (n : ℕ) (x r : List ℕ) → length x ≡ n → take n (x ++ r) ≡ x
take_of n x r e = ap (λ (k : ℕ). take k (x ++ r)) (sym e) ∙ take-append_length x r

drop_of : (n : ℕ) (x r : List ℕ) → length x ≡ n → drop n (x ++ r) ≡ r
drop_of n x r e = drop-append_beyond x r n (omega arith) ∙ drop_eq r (n - length x) 0 (omega arith)

-- Strings of one length can be read off their concatenation.
flatten-injective :
    (xs ys : List (List ℕ)) → AllLength xs → AllLength ys → flatten xs ≡ flatten ys → xs ≡ ys
unfolding flatten
flatten-injective [] [] h k e = refl
flatten-injective [] (y ∷ ys) h k e =
    absurd (omega (arith, ap length e, length-append y (flatten ys), k.0))
flatten-injective (x ∷ xs) [] h k e =
    absurd (omega (arith, ap length e, length-append x (flatten xs), h.0))
flatten-injective (x ∷ xs) (y ∷ ys) h k e =
    ap₂ ◌∷◌ (sym (take_of 32 x (flatten xs) h.0) ∙ ap (take 32) e ∙ take_of 32 y (flatten ys) k.0) (
      flatten-injective xs ys h.1 k.1
        (sym (drop_of 32 x (flatten xs) h.0) ∙ ap (drop 32) e ∙ drop_of 32 y (flatten ys) k.0))

AllLength-map :
    (f : ℕ → List ℕ) (a n : ℕ) → ((p : ℕ) → length (f p) ≡ 32) → AllLength (map f (count_up a n))
AllLength-map f a zero h = tt
AllLength-map f a (suc n) h = (h a, AllLength-map f (suc a) n h)

∷-tail : {x y : List ℕ} {xs ys : List (List ℕ)} → x ∷ xs ≡ y ∷ ys → xs ≡ ys
∷-tail e = cc

∷-head : {x y : List ℕ} {xs ys : List (List ℕ)} → x ∷ xs ≡ y ∷ ys → x ≡ y
∷-head e = cc

-- Two lists over ranges from the same start are equal pointwise, and equally long.
same_range :
    (f g : ℕ → List ℕ) (a n m : ℕ)
    → map f (count_up a n) ≡ map g (count_up a m)
    → (n ≡ m) × ((p : ℕ) → a ≤ p → p < a + n → f p ≡ g p)
same_range f g a zero zero e = (refl, λ p h k. absurd (omega arith))
same_range f g a zero (suc m) e = cc
same_range f g a (suc n) zero e = cc
same_range f g a (suc n) (suc m) e =
    let (amount, later) = same_range f g (suc a) n m (∷-tail e) in
    (
      ap suc amount,
      λ p h k. elim (ℕ_discrete a p) [
        | yes here ↦ rw (← here) (∷-head e)
        | no other ↦ later p (grind arith) (omega arith)
      ],
    )

module _ (v : Databases) (sized : IsSized v) (apart : NoCollision v) where
  -- A group whose hashes agree is on the replica already, page for page.
  pub group_agrees :
      (g p : ℕ)
      → g < replica_groups v
      → bytes_eq (origin_group_hash v g) (replica_group_hash v g) ≡ true
      → g * 64 + 1 ≤ p
      → p ≤ g * 64 + 64
      → p ≤ v.origin_pages
      → (p ≤ v.replica_pages) × (origin_page v p ≡ replica_page v p)
  group_agrees g p known same low high within = (
    omega (arith, amount),
    apart.page_apart p (omega arith) (omega (arith, amount)) (digests p low (omega arith)),
  )
    where
      lists : origin_digests v g ≡ replica_digests v g
      lists =
          flatten-injective _ _ (AllLength-map _ _ _ (λ q. apart.digest_length (origin_page v q)))
            (AllLength-map _ _ _ (λ q. apart.digest_length (replica_page v q)))
            (apart.group_apart g known (bytes_eq→eq _ _ same))

      amount : pages_in v.origin_pages g ≡ pages_in v.replica_pages g
      amount = (same_range _ _ (g * 64 + 1) _ _ lists).0

      digests :
          (q : ℕ)
          → g * 64 + 1 ≤ q
          → q < g * 64 + 1 + pages_in v.origin_pages g
          → digest_of v (origin_page v q) ≡ digest_of v (replica_page v q)
      digests = (same_range _ _ (g * 64 + 1) _ _ lists).1
