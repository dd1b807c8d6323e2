-- ===== src/Protocol/Origin/Acceptance.antt =====
-- src/protocol/origin.rs: `validate_page_hashes_for_group` and the listings it accepts.
use mathlib.Core.Path.{ap₂}
use rsqlite_rsync.Base.{
  ℕ, zero, suc, ◌+◌, ◌*◌, ◌≤◌, ◌<◌, ◌≡◌, refl, ap, ◌∙◌, ◌↔◌, List, [], ◌∷◌, false, Option, none,
  some, length, count_up, contains, length-count_up, ==_refl, arith,
}
use rsqlite_rsync.Protocol.{u32}
use rsqlite_rsync.Error.{ok}
use rsqlite_rsync.Protocol.Origin.Checks.{
  check_pages, check_prefix, first_page_of, last_page_of, validate_page_hashes_for_group,
}

-- The group's page range does not reach the end of the 32-bit numbers.
abbrev pub InWord : ℕ → Type 0
InWord group = group * 64 + 128 ≤ 4294967296

pub first_page_of_lem :
    (group : ℕ) → group * 64 + 64 < 4294967296 → first_page_of group ≡ group * 64 + 1
first_page_of_lem group h = omega arith

pub last_page_of_lem :
    (group : ℕ) → group * 64 + 64 < 4294967296 → last_page_of group ≡ group * 64 + 64
last_page_of_lem group h = omega arith

abbrev pub AllIn : ℕ → ℕ → List ℕ → Type 0
AllIn first last [] = Unit {0}
AllIn first last (p ∷ ps) = (first ≤ p) × (p ≤ last) × AllIn first last ps

abbrev pub AllBelow : ℕ → List ℕ → Type 0
AllBelow a [] = Unit {0}
AllBelow a (p ∷ ps) = (p < a) × AllBelow a ps

check_pages-AllIn :
    (group first last : ℕ) (seen : List ℕ) (prev : Option ℕ) (page_nos : List ℕ)
    → check_pages group first last seen prev page_nos ≡ ok tt
    → AllIn first last page_nos
unfolding check_pages
check_pages-AllIn group first last seen prev [] h = tt
check_pages-AllIn group first last seen prev (p ∷ ps) h =
    ground (arith, check_pages-AllIn group first last (p ∷ seen) (some p) ps)

not-contains : (a : ℕ) (seen : List ℕ) → AllBelow a seen → contains seen a ≡ false
not-contains a [] h = refl
not-contains a (p ∷ ps) h = ground (arith, not-contains a ps h.1)

AllBelow-suc : (a : ℕ) (seen : List ℕ) → AllBelow a seen → AllBelow (suc a) seen
AllBelow-suc a [] h = tt
AllBelow-suc a (p ∷ ps) h = (omega arith, AllBelow-suc a ps h.1)

abbrev Before : Option ℕ → ℕ → Type 0
Before none a = Unit {0}
Before (some prev) a = prev < a

check_pages-count_up :
    (group first last a n : ℕ) (seen : List ℕ) (prev : Option ℕ)
    → 1 ≤ a
    → first ≤ a
    → a + n ≤ suc last
    → AllBelow a seen
    → Before prev a
    → check_pages group first last seen prev (count_up a n) ≡ ok tt
unfolding check_pages
check_pages-count_up group first last a zero seen prev pos low high below before = refl
check_pages-count_up group first last a (suc n) seen none pos low high below before = ground (
  arith,
  not-contains a seen below,
  check_pages-count_up group first last (suc a) n (a ∷ seen) (some a) (omega arith) (omega arith)
      (omega arith) (omega arith, AllBelow-suc a seen below) (omega arith),
)
check_pages-count_up group first last a (suc n) seen (some prev) pos low high below before =
    ground (
      arith,
      not-contains a seen below,
      check_pages-count_up group first last (suc a) n (a ∷ seen) (some a) (omega arith)
          (omega arith) (omega arith) (omega arith, AllBelow-suc a seen below) (omega arith),
    )

check_prefix-cons :
    (group first idx p : ℕ) (ps : List ℕ)
    → check_prefix group first idx (p ∷ ps) ≡ ok tt
    → (p ≡ u32 (first + u32 idx)) × (check_prefix group first (idx + 1) ps ≡ ok tt)
unfolding check_prefix
check_prefix-cons group first idx p ps h = ground arith

pub count_up_at : (a b n : ℕ) → a ≡ b → count_up a n ≡ count_up b n
count_up_at a b n e = rw e refl

check_prefix-eq :
    (group idx : ℕ) (page_nos : List ℕ)
    → InWord group
    → idx ≤ 64
    → AllIn (group * 64 + 1) (group * 64 + 64) page_nos
    → check_prefix group (group * 64 + 1) idx page_nos ≡ ok tt
    → (page_nos ≡ count_up (group * 64 + 1 + idx) (length page_nos)) × (idx + length page_nos ≤ 64)
check_prefix-eq group idx [] w i inside h = (refl, omega arith)
check_prefix-eq group idx (p ∷ ps) w i (low, high, inside) h =
    let (e, rest) = check_prefix-cons group (group * 64 + 1) idx p ps h in
    let (same, fits) = check_prefix-eq group (idx + 1) ps w (omega arith) inside rest in
    (ap₂ ◌∷◌ (omega arith) (same ∙ count_up_at _ _ (length ps) (omega arith)), omega arith)

check_prefix-count_up :
    (group idx n : ℕ)
    → InWord group
    → idx + n ≤ 64
    → check_prefix group (group * 64 + 1) idx (count_up (group * 64 + 1 + idx) n) ≡ ok tt
unfolding check_prefix
check_prefix-count_up group idx zero w h = refl
check_prefix-count_up group idx (suc n) w h =
    let e : u32 (group * 64 + 1 + u32 idx) ≡ group * 64 + 1 + idx = omega arith in
    rw (e, ==_refl (group * 64 + 1 + idx))
      (rw (count_up_at (suc (group * 64 + 1 + idx)) (group * 64 + 1 + (idx + 1)) n (omega arith))
        (check_prefix-count_up group (idx + 1) n w (omega arith)))

-- A listing of a group: its first `n` pages, with a hash for each.
abbrev pub IsListing : ℕ → List ℕ → List (List ℕ) → Type 0
IsListing group page_nos hashes =
    (page_nos ≡ count_up (group * 64 + 1) (length page_nos))
    × (length page_nos ≤ 64)
    × (length page_nos ≡ length hashes)

validate_parts :
    (group : ℕ) (page_nos : List ℕ) (hashes : List (List ℕ))
    → validate_page_hashes_for_group page_nos hashes group ≡ ok tt
    → (length page_nos ≡ length hashes)
      × (check_pages group (first_page_of group) (last_page_of group) [] none page_nos ≡ ok tt)
      × (check_prefix group (first_page_of group) 0 page_nos ≡ ok tt)
unfolding validate_page_hashes_for_group
validate_parts group page_nos hashes h = ground arith

validate_of_listing :
    (group n : ℕ) (hashes : List (List ℕ))
    → InWord group
    → n ≤ 64
    → n ≡ length hashes
    → validate_page_hashes_for_group (count_up (group * 64 + 1) n) hashes group ≡ ok tt
unfolding validate_page_hashes_for_group
validate_of_listing group n hashes w h e =
    rw
      (
        length-count_up (group * 64 + 1) n,
        e,
        ==_refl (length hashes),
        first_page_of_lem group (omega arith),
        last_page_of_lem group (omega arith),
      )
      (rw
        (check_pages-count_up group (group * 64 + 1) (group * 64 + 64) (group * 64 + 1)
          (length hashes) [] none (omega arith) (omega arith) (omega arith) tt tt)
        (rw (count_up_at (group * 64 + 1) (group * 64 + 1 + 0) (length hashes) (omega arith))
          (check_prefix-count_up group 0 (length hashes) w (omega arith))))

-- The origin accepts a page listing exactly if it holds the first pages of the group, at most 64, in
-- order and with no gap, and one hash for each. The page numbers of the group and of the one after it
-- fit in 32 bits: the group's number times 64, plus 128, is at most 2^32.
pub validate_page_hashes_iff :
    (group : ℕ) (page_nos : List ℕ) (hashes : List (List ℕ))
    → InWord group
    → (validate_page_hashes_for_group page_nos hashes group ≡ ok tt)
      ↔ IsListing group page_nos hashes
validate_page_hashes_iff group page_nos hashes w = (sound, complete)
  where
    sound :
        validate_page_hashes_for_group page_nos hashes group ≡ ok tt
        → IsListing group page_nos hashes
    sound h =
        let (lengths, pages, prefix) = validate_parts group page_nos hashes h in
        let first : first_page_of group ≡ group * 64 + 1 = first_page_of_lem group (omega arith) in
        let last : last_page_of group ≡ group * 64 + 64 = last_page_of_lem group (omega arith) in
        let inside : AllIn (group * 64 + 1) (group * 64 + 64) page_nos =
          check_pages-AllIn group _ _ [] none page_nos (rw (first, last) at pages) in
        let (same, fits) =
          check_prefix-eq group 0 page_nos w (omega arith) inside (rw first at prefix) in
        (same ∙ count_up_at _ _ (length page_nos) (omega arith), omega arith, lengths)

    complete :
        IsListing group page_nos hashes
        → validate_page_hashes_for_group page_nos hashes group ≡ ok tt
    complete (same, fits, lengths) =
        ap (λ (ns : List ℕ). validate_page_hashes_for_group ns hashes group) same
        ∙ validate_of_listing group (length page_nos) hashes w fits lengths
