-- ===== src/Sync/View.antt =====
-- A sync of a replica's bytes with an origin's, as both handlers see it: pages, their digests, the
-- groups, and the pages that are to be sent.
use rsqlite_rsync.Base.{
  ℕ, ◌+◌, ◌-◌, ◌*◌, ◌≤◌, ◌≡◌, List, [], ◌∷◌, ◌++◌, map, Option, none, some, length, count_up,
  flatten_options, bytes_eq, min, max, if◌then◌else◌, ◌⊎◌,
}
use rsqlite_rsync.Hash.{HashAlgorithm, Digests, hash_page_for, hash_group_for}
use rsqlite_rsync.Protocol.Messages.{PageData}
use rsqlite_rsync.Protocol.Origin.Coarse.{group_count}
use rsqlite_rsync.Db.Pages.{page}

-- What the two sides start from.
pub record Databases : Type 0 where
  pub digests : Digests
  pub algorithm : HashAlgorithm
  pub page_size : ℕ
  pub origin_pages : ℕ
  pub replica_pages : ℕ
  pub origin_bytes : List ℕ
  pub replica_bytes : List ℕ

-- How many of `n` pages lie in group `g`.
abbrev pub pages_in : ℕ → ℕ → ℕ
pages_in n g = min (g * 64 + 64) n - g * 64

abbrev pub Among : ℕ → List ℕ → Type 0
Among a [] = ⊥
Among a (x ∷ xs) = (a ≡ x) ⊎ Among a xs

module _ (v : Databases) where
  abbrev pub digest_of : List ℕ → List ℕ
  digest_of content = hash_page_for v.digests content v.algorithm

  abbrev pub origin_page : ℕ → List ℕ
  origin_page p = page v.page_size v.origin_bytes p

  abbrev pub replica_page : ℕ → List ℕ
  replica_page p = page v.page_size v.replica_bytes p

  -- The digests that are compared for group `g`.
  abbrev pub origin_digests : ℕ → List (List ℕ)
  origin_digests g =
      map (λ p. digest_of (origin_page p)) (count_up (g * 64 + 1) (pages_in v.origin_pages g))

  abbrev pub replica_digests : ℕ → List (List ℕ)
  replica_digests g =
      map (λ p. digest_of (replica_page p)) (count_up (g * 64 + 1) (pages_in v.replica_pages g))

  abbrev pub origin_group_hash : ℕ → List ℕ
  origin_group_hash g = hash_group_for v.digests (origin_digests g) v.algorithm

  abbrev pub replica_group_hash : ℕ → List ℕ
  replica_group_hash g = hash_group_for v.digests (replica_digests g) v.algorithm

  -- The number of groups that the replica sends hashes of.
  abbrev pub replica_groups : ℕ
  replica_groups = max (group_count v.replica_pages) 1

  abbrev pub differing : ℕ → Option ℕ
  differing g = if bytes_eq (origin_group_hash g) (replica_group_hash g) then none else some g

  -- The groups of the fine pass.
  unfoldable pub refined_groups : List ℕ
  refined_groups =
      flatten_options (map differing (count_up 0 replica_groups))
      ++ count_up replica_groups (group_count v.origin_pages - replica_groups)

  abbrev pub page_data : ℕ → PageData
  page_data p = record { page_no = p; content = origin_page p }

  abbrev pub changed : ℕ → Option PageData
  changed p =
      if bytes_eq (digest_of (origin_page p)) (digest_of (replica_page p))
      then none
      else some (page_data p)

  -- The pages that are sent for group `g`.
  unfoldable pub sent_pages : ℕ → List PageData
  sent_pages g =
      let k : ℕ = pages_in v.replica_pages g in
      flatten_options (map changed (count_up (g * 64 + 1) k))
      ++ map page_data (count_up (g * 64 + 1 + k) (pages_in v.origin_pages g - k))

  -- Sizes: whole pages, a replica that is no larger than the origin, and page numbers in range.
  pub record IsSized : Type 0 where
    pub origin_length : length v.origin_bytes ≡ v.origin_pages * v.page_size
    pub replica_length : length v.replica_bytes ≡ v.replica_pages * v.page_size
    pub not_larger : v.replica_pages ≤ v.origin_pages
    pub not_empty : 1 ≤ v.origin_pages
    pub in_range : v.origin_pages + 128 ≤ 4294967296
