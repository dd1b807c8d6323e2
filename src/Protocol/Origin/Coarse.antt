-- ===== src/Protocol/Origin/Coarse.antt =====
-- src/protocol/origin.rs: the handshake's checks and the coarse pass over the group hashes.
use rsqlite_rsync.Base.{
  ℕ, ◌+◌, ◌-◌, ◌*◌, ◌/◌, List, ◌++◌, map, Option, none, some, length, enumerate, flatten_options,
  count_up, range_inclusive, slice, bytes_eq, ltb, min, if◌then◌else◌,
}
use rsqlite_rsync.Hash.{group_size, HashAlgorithm, Digests, hash_page_for, hash_group_for}
use rsqlite_rsync.Tuning.{SyncTuning}
use rsqlite_rsync.Snapshot.{Snapshot}
use rsqlite_rsync.Error.{Result, ok, panic, and_then, collect}
use rsqlite_rsync.Protocol.{Rayon, map_tuned, chunked, groups_per_chunk, u32}
use rsqlite_rsync.Protocol.Origin.Checks.{first_page_of, last_page_of}

-- A slice out of range panics.
abbrev pub or_panic {ℓ} : {A : Type ℓ} → Option A → Result A
or_panic none = panic
or_panic (some a) = ok a

-- `&snap_bytes[(p - 1) * size .. (p - 1) * size + size]`.
unfoldable pub page_slice : List ℕ → ℕ → ℕ → Result (List ℕ)
unfolding slice
page_slice bytes page_size page_no = or_panic (slice bytes ((page_no - 1) * page_size) page_size)

-- `page_count.div_ceil(GROUP_SIZE)`.
abbrev pub group_count : ℕ → ℕ
group_count page_count = (page_count + 63) / group_size

module _ (d : Digests) (alg : HashAlgorithm) (snap : Snapshot) where
  unfoldable pub hash_of_page : ℕ → Result (List ℕ)
  unfolding page_slice
  hash_of_page page_no =
      and_then (page_slice snap.bytes snap.page_size page_no)
        λ content. ok (hash_page_for d content alg)

  unfoldable pub origin_group_hash_for_pages : ℕ → ℕ → Result (List ℕ)
  unfolding hash_of_page
  origin_group_hash_for_pages first last =
      and_then (collect (map hash_of_page (range_inclusive first last)))
        λ page_hashes. ok (hash_group_for d page_hashes alg)

  -- The closure of the coarse pass: `some` of the group if it needs the fine pass.
  unfoldable pub compare_group : ℕ → ℕ × List ℕ → Result (Option ℕ)
  unfolding origin_group_hash_for_pages
  compare_group first_group (i, replica_group_hash) =
      let group_idx : ℕ = u32 (first_group + u32 i) in
      let first_page : ℕ = first_page_of group_idx in
      let last_page : ℕ = min (last_page_of group_idx) snap.page_count in
      if ltb snap.page_count first_page
      then ok (some group_idx)
      else and_then (origin_group_hash_for_pages first_page last_page)
          λ h. ok (if bytes_eq h replica_group_hash then none else some group_idx)

  -- One chunk of the coarse pass.
  unfoldable pub compare_chunk : Rayon → SyncTuning → ℕ → ℕ → List (List ℕ) → Result (List ℕ)
  unfolding compare_group
  compare_chunk rayon tuning first_group start hashes =
      and_then
        (map_tuned rayon tuning (u32 (length hashes * group_size)) (compare_group first_group)
          (enumerate start hashes))
        λ found. ok (flatten_options found)

  -- The groups that differ, and those that only the origin has.
  unfoldable pub groups_to_refine : Rayon → SyncTuning → ℕ → List (List ℕ) → Result (List ℕ)
  unfolding compare_chunk
  groups_to_refine rayon tuning first_group hashes =
      and_then
        (chunked (compare_chunk rayon tuning first_group) (groups_per_chunk tuning) (length hashes)
          0 hashes)
        λ differing.
          let max_replica_group : ℕ = u32 (first_group + u32 (length hashes)) in
          ok (
            differing
            ++ count_up max_replica_group (group_count snap.page_count - max_replica_group))
