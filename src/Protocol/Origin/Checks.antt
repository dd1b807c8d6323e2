-- ===== src/Protocol/Origin/Checks.antt =====
-- src/protocol/origin.rs: what the origin checks of the replica's messages.
use rsqlite_rsync.Base.{
  ℕ, ◌+◌, ◌*◌, List, [], ◌∷◌, Bool, true, false, ◌&&◌, ◌||◌, Option, none, some, length, contains,
  collect_set, ltb, leb, ◌==◌, if◌then◌else◌,
}
use rsqlite_rsync.Hash.{group_size}
use rsqlite_rsync.Protocol.{u32}
use rsqlite_rsync.Protocol.Messages.{plain, format, format_sets}
use rsqlite_rsync.Error.{Result, ok, err, protocol, and_then}

-- `prev` of the loop, compared with the next page: `*page_no <= prev_page`.
abbrev pub not_above : Option ℕ → ℕ → Bool
not_above none page_no = false
not_above (some prev) page_no = leb page_no prev

abbrev prev_of : Option ℕ → ℕ
prev_of none = 0
prev_of (some prev) = prev

-- The first loop: range, duplicates, order.
unfoldable pub check_pages : ℕ → ℕ → ℕ → List ℕ → Option ℕ → List ℕ → Result (Unit {0})
check_pages group first last seen prev [] = ok tt
check_pages group first last seen prev (page_no ∷ rest) =
    if page_no == 0
    then err (protocol (plain "PageHashes includes invalid page number 0"))
    else if ltb page_no first || ltb last page_no
    then err (
        protocol (
          format "PageHashes page {} is outside group {} range [{}, {}]"
            (page_no ∷ group ∷ first ∷ last ∷ [])))
    else if contains seen page_no
    then err (protocol (format "PageHashes contains duplicate page number {}" (page_no ∷ [])))
    else if not_above prev page_no
    then err (
        protocol (
          format "PageHashes page numbers must be strictly increasing (got {} then {})"
            (prev_of prev ∷ page_no ∷ [])))
    else check_pages group first last (page_no ∷ seen) (some page_no) rest

-- The second loop: the pages are the first ones of the group, with none left out.
unfoldable pub check_prefix : ℕ → ℕ → ℕ → List ℕ → Result (Unit {0})
check_prefix group first idx [] = ok tt
check_prefix group first idx (page_no ∷ rest) =
    if page_no == u32 (first + u32 idx)
    then check_prefix group first (idx + 1) rest
    else err (
        protocol (
          format
            "PageHashes page numbers must be a contiguous prefix for group {} (expected page {}, got {})"
            (group ∷ u32 (first + u32 idx) ∷ page_no ∷ [])))

-- `group_idx * GROUP_SIZE + 1` and `(group_idx + 1) * GROUP_SIZE`.
abbrev pub first_page_of : ℕ → ℕ
first_page_of group = u32 (u32 (group * group_size) + 1)

abbrev pub last_page_of : ℕ → ℕ
last_page_of group = u32 (u32 (group + 1) * group_size)

unfoldable pub validate_page_hashes_for_group : List ℕ → List (List ℕ) → ℕ → Result (Unit {0})
unfolding check_pages check_prefix
validate_page_hashes_for_group page_nos page_hashes group =
    if length page_nos == length page_hashes
    then and_then (check_pages group (first_page_of group) (last_page_of group) [] none page_nos)
        (λ _. check_prefix group (first_page_of group) 0 page_nos)
    else err (
        protocol (
          format "PageHashes has mismatched lengths: page_nos={}, hashes={}"
            (length page_nos ∷ length page_hashes ∷ [])))

-- Equality of two sets.
abbrev pub subset : List ℕ → List ℕ → Bool
subset [] ys = true
subset (x ∷ xs) ys = contains ys x && subset xs ys

abbrev pub set_eq : List ℕ → List ℕ → Bool
set_eq xs ys = subset xs ys && subset ys xs

unfoldable pub validate_pages_ack : List ℕ → List ℕ → Result (Unit {0})
validate_pages_ack expected_page_nos ack_page_nos =
    let expected : List ℕ = collect_set expected_page_nos in
    let actual : List ℕ = collect_set ack_page_nos in
    if length ack_page_nos == length actual
    then if set_eq expected actual
      then ok tt
      else err (
          protocol
            (format_sets "PagesAck does not match sent pages: expected {}, got {}" expected actual))
    else err (protocol (plain "PagesAck contains duplicate page numbers"))
