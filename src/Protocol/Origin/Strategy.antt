-- ===== src/Protocol/Origin/Strategy.antt =====
-- src/protocol/origin.rs: the answers of the origin under different tunings.
use rsqlite_rsync.Base.{
  ℕ, ◌+◌, ◌-◌, ◌≤◌, ◌≡◌, refl, sym, ap, ◌∙◌, List, ◌++◌, map, length, enumerate, flatten_options,
  count_up, min, range_inclusive, arith,
}
use rsqlite_rsync.Hash.{HashAlgorithm, Digests}
use rsqlite_rsync.Tuning.{SyncTuning}
use rsqlite_rsync.Snapshot.{Snapshot}
use rsqlite_rsync.Error.{Result, ok, and_then, collect}
use rsqlite_rsync.Protocol.{Rayon, groups_per_chunk, u32}
use rsqlite_rsync.Protocol.Messages.{PageData}
use rsqlite_rsync.Protocol.Chunks.{
  map_tuned_lem, chunked_lem, filter_enumerated, filter_enumerated-Splits,
}
use rsqlite_rsync.Protocol.Origin.Checks.{first_page_of, last_page_of}
use rsqlite_rsync.Protocol.Origin.Coarse.{
  group_count, compare_group, compare_chunk, groups_to_refine,
}
use rsqlite_rsync.Protocol.Origin.Fine.{
  pair_up, list_max, next_missing, changed_page_for, missing_page, changed_pages,
}

pub groups_per_chunk_pos : (tuning : SyncTuning) → 1 ≤ groups_per_chunk tuning
groups_per_chunk_pos tuning = omega arith

module _ (d : Digests) (alg : HashAlgorithm) (snap : Snapshot) where
  -- The groups to refine, with no chunks and no threads.
  abbrev pub plain_groups_to_refine : ℕ → List (List ℕ) → Result (List ℕ)
  plain_groups_to_refine first_group hashes =
      and_then (filter_enumerated (compare_group d alg snap first_group) 0 hashes) λ differing.
        let max_replica_group : ℕ = u32 (first_group + u32 (length hashes)) in
        ok (
          differing ++ count_up max_replica_group (group_count snap.page_count - max_replica_group))

  compare_chunk_lem :
      (rayon : Rayon) (tuning : SyncTuning) (first_group start : ℕ) (hashes : List (List ℕ))
      → compare_chunk d alg snap rayon tuning first_group start hashes
        ≡ filter_enumerated (compare_group d alg snap first_group) start hashes
  unfolding compare_chunk
  compare_chunk_lem rayon tuning first_group start hashes =
      ap (λ (r : Result _). and_then r (λ found. ok (flatten_options found)))
        (map_tuned_lem rayon tuning _ (compare_group d alg snap first_group)
          (enumerate start hashes))

  pub groups_to_refine_lem :
      (rayon : Rayon) (tuning : SyncTuning) (first_group : ℕ) (hashes : List (List ℕ))
      → groups_to_refine d alg snap rayon tuning first_group hashes
        ≡ plain_groups_to_refine first_group hashes
  unfolding groups_to_refine
  groups_to_refine_lem rayon tuning first_group hashes =
      rw
        (chunked_lem (filter_enumerated (compare_group d alg snap first_group))
          (compare_chunk d alg snap rayon tuning first_group) (groups_per_chunk tuning)
          (filter_enumerated-Splits (compare_group d alg snap first_group))
          (compare_chunk_lem rayon tuning first_group) (groups_per_chunk_pos tuning) (length hashes)
          0 hashes (omega arith))
        refl

  -- Whatever the tuning and the thread pool, the origin asks for the same groups, panics included.
  pub groups_to_refine-tuning :
      (rayon rayon' : Rayon) (tuning tuning' : SyncTuning) (first_group : ℕ)
      (hashes : List (List ℕ))
      → groups_to_refine d alg snap rayon tuning first_group hashes
        ≡ groups_to_refine d alg snap rayon' tuning' first_group hashes
  groups_to_refine-tuning rayon rayon' tuning tuning' first_group hashes =
      groups_to_refine_lem rayon tuning first_group hashes
      ∙ sym (groups_to_refine_lem rayon' tuning' first_group hashes)

-- What the origin sends for a group, with no threads.
abbrev pub plain_changed_pages :
    Digests → Snapshot → HashAlgorithm → ℕ → List ℕ → List (List ℕ) → Result (List PageData)
plain_changed_pages d snap alg group page_nos hashes =
    and_then (collect (map (changed_page_for d snap alg) (pair_up page_nos hashes))) λ changed.
      and_then
        (collect (
          map (missing_page snap) (
            range_inclusive (next_missing (list_max page_nos) (first_page_of group))
              (min (last_page_of group) snap.page_count))))
        λ missing. ok (flatten_options changed ++ missing)

pub changed_pages_lem :
    (d : Digests) (rayon : Rayon) (tuning : SyncTuning) (snap : Snapshot) (alg : HashAlgorithm)
    (group : ℕ) (page_nos : List ℕ) (hashes : List (List ℕ))
    → changed_pages d rayon tuning snap alg group page_nos hashes
      ≡ plain_changed_pages d snap alg group page_nos hashes
unfolding changed_pages
changed_pages_lem d rayon tuning snap alg group page_nos hashes =
    rw (map_tuned_lem rayon tuning (u32 (length page_nos)) (changed_page_for d snap alg)) refl
