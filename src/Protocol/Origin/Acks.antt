-- ===== src/Protocol/Origin/Acks.antt =====
-- src/protocol/origin.rs: `validate_pages_ack` and the acknowledgements it accepts.
use rsqlite_rsync.Base.{
  ℕ, suc, ◌≤◌, ◌≡◌, refl, sym, ap, subst, ◌∙◌, ◌↔◌, List, [], ◌∷◌, Bool, true, false, length,
  contains, collect_set, insert_if_absent, ◌==◌, ◌&&◌, ◌||◌, Bool-cases, inl, inr, ==_iff, ==_refl,
  arith,
}
use rsqlite_rsync.Error.{ok}
use rsqlite_rsync.Protocol.Origin.Checks.{subset, set_eq, validate_pages_ack}

-- No number occurs twice.
abbrev pub NoRepeat : List ℕ → Type 0
NoRepeat [] = Unit {0}
NoRepeat (x ∷ xs) = (contains xs x ≡ false) × NoRepeat xs

contains-insert_if_absent :
    (b : Bool) (x a : ℕ) (xs : List ℕ)
    → contains xs x ≡ b
    → contains (insert_if_absent b x xs) a ≡ (x == a || contains xs a)
contains-insert_if_absent true x a xs h = elim (Bool-cases (x == a)) [
  | inl e ↦ rw e (subst (λ (y : ℕ). contains xs y ≡ true) ((==_iff x a).0 e) h)
  | inr e ↦ rw e refl
]
contains-insert_if_absent false x a xs h = refl

contains-collect_set : (a : ℕ) (xs : List ℕ) → contains (collect_set xs) a ≡ contains xs a
contains-collect_set a [] = refl
contains-collect_set a (x ∷ xs) =
    contains-insert_if_absent (contains (collect_set xs) x) x a (collect_set xs) refl
    ∙ ap (λ (b : Bool). x == a || b) (contains-collect_set a xs)

length-insert :
    (b : Bool) (x : ℕ) (xs : List ℕ) → length (insert_if_absent b x xs) ≤ suc (length xs)
length-insert true x xs = omega arith
length-insert false x xs = omega arith

length-collect_set : (xs : List ℕ) → length (collect_set xs) ≤ length xs
length-collect_set [] = omega arith
length-collect_set (x ∷ xs) =
    omega
      (arith, length-insert (contains (collect_set xs) x) x (collect_set xs), length-collect_set xs)

NoRepeat-length : (xs : List ℕ) → NoRepeat xs → length (collect_set xs) ≡ length xs
NoRepeat-length [] h = refl
NoRepeat-length (x ∷ xs) (new, rest) =
    rw (contains-collect_set x xs, new) (ap suc (NoRepeat-length xs rest))

length-NoRepeat : (xs : List ℕ) → length xs ≡ length (collect_set xs) → NoRepeat xs
length-NoRepeat [] h = tt
length-NoRepeat (x ∷ xs) h = elim (Bool-cases (contains (collect_set xs) x)) [
  | inl old ↦ absurd (
      omega (
        arith,
        ap (λ (b : Bool). length (insert_if_absent b x (collect_set xs))) old,
        length-collect_set xs,
      ))
  | inr new ↦ (
    sym (contains-collect_set x xs) ∙ new,
    length-NoRepeat xs
        (omega (arith, ap (λ (b : Bool). length (insert_if_absent b x (collect_set xs))) new)),
  )
]

And-true : (a b : Bool) → (a && b) ≡ true → (a ≡ true) × (b ≡ true)
And-true a b h = ground arith

subset_sound :
    (xs ys : List ℕ) → subset xs ys ≡ true → (a : ℕ) → contains xs a ≡ true → contains ys a ≡ true
subset_sound [] ys h a m = cc
subset_sound (x ∷ xs) ys h a m =
    let (here, later) = And-true (contains ys x) (subset xs ys) h in
    elim (Bool-cases (x == a)) [
      | inl e ↦ subst (λ (y : ℕ). contains ys y ≡ true) ((==_iff x a).0 e) here
      | inr e ↦ subset_sound xs ys later a (ground arith)
    ]

subset_complete :
    (xs ys : List ℕ) → ((a : ℕ) → contains xs a ≡ true → contains ys a ≡ true) → subset xs ys ≡ true
subset_complete [] ys h = refl
subset_complete (x ∷ xs) ys h =
    rw (h x (rw (==_refl x) refl)) (subset_complete xs ys (λ a m. h a (ground arith)))

-- The same members.
abbrev pub SameMembers : List ℕ → List ℕ → Type 0
SameMembers xs ys = (a : ℕ) → contains xs a ≡ contains ys a

both_true : (a b : Bool) → (a ≡ true → b ≡ true) → (b ≡ true → a ≡ true) → a ≡ b
both_true true b h k = sym (h refl)
both_true false true h k = k refl
both_true false false h k = refl

set_eq_sound : (xs ys : List ℕ) → set_eq xs ys ≡ true → SameMembers xs ys
set_eq_sound xs ys h a =
    let (there, back) = And-true (subset xs ys) (subset ys xs) h in
    both_true _ _ (subset_sound xs ys there a) (subset_sound ys xs back a)

set_eq_complete : (xs ys : List ℕ) → SameMembers xs ys → set_eq xs ys ≡ true
set_eq_complete xs ys h =
    rw (subset_complete xs ys (λ a m. sym (h a) ∙ m), subset_complete ys xs (λ a m. h a ∙ m)) refl

validate_parts :
    (expected ack : List ℕ)
    → validate_pages_ack expected ack ≡ ok tt
    → (length ack ≡ length (collect_set ack))
      × (set_eq (collect_set expected) (collect_set ack) ≡ true)
unfolding validate_pages_ack
validate_parts expected ack h = ground arith

validate_of_parts :
    (expected ack : List ℕ)
    → length ack ≡ length (collect_set ack)
    → set_eq (collect_set expected) (collect_set ack) ≡ true
    → validate_pages_ack expected ack ≡ ok tt
unfolding validate_pages_ack
validate_of_parts expected ack e f = rw (← e, ==_refl (length ack), f) refl

-- The origin accepts an acknowledgement exactly if it repeats no page and names the pages that were
-- sent, in any order.
pub validate_pages_ack_iff :
    (expected ack : List ℕ)
    → (validate_pages_ack expected ack ≡ ok tt) ↔ (NoRepeat ack × SameMembers expected ack)
validate_pages_ack_iff expected ack = (sound, complete)
  where
    sound : validate_pages_ack expected ack ≡ ok tt → NoRepeat ack × SameMembers expected ack
    sound h =
        let (lengths, same) = validate_parts expected ack h in
        (
          length-NoRepeat ack lengths,
          λ a.
              sym (contains-collect_set a expected)
              ∙ set_eq_sound (collect_set expected) (collect_set ack) same a
              ∙ contains-collect_set a ack,
        )

    complete : NoRepeat ack × SameMembers expected ack → validate_pages_ack expected ack ≡ ok tt
    complete (fresh, same) = validate_of_parts expected ack (sym (NoRepeat-length ack fresh)) (
        set_eq_complete (collect_set expected) (collect_set ack)
          (λ a. contains-collect_set a expected ∙ same a ∙ sym (contains-collect_set a ack)))
