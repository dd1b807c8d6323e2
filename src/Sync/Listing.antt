-- ===== src/Sync/Listing.antt =====
-- src/protocol/origin.rs, src/protocol/replica.rs: what the slices, listings and comparisons of the handlers
-- come to on whole databases.
use rsqlite_rsync.Base.{
  ℕ, zero, suc, ◌+◌, ◌-◌, ◌*◌, ◌≤◌, ◌<◌, ◌≡◌, refl, ap, ◌∙◌, List, map, length, count_up, slice,
  get_elem?, min, le→leb, lt→leb_false, arith,
}
use native.Mathlib.Decide.{dec_lt}
use rsqlite_rsync.Tuning.{SyncTuning}
use rsqlite_rsync.Snapshot.{Snapshot}
use rsqlite_rsync.Error.{ok}
use rsqlite_rsync.Protocol.{Rayon}
use rsqlite_rsync.Protocol.Chunks.{map_tuned_lem}
use rsqlite_rsync.Protocol.Collect.{collect-count_up, get_elem?-count_up}
use rsqlite_rsync.Protocol.Origin.Checks.{first_page_of, last_page_of}
use rsqlite_rsync.Protocol.Origin.Acceptance.{first_page_of_lem, last_page_of_lem}
use rsqlite_rsync.Protocol.Origin.Coarse.{or_panic, page_slice}
use rsqlite_rsync.Protocol.Replica.{page_hash_list, group_listing}
use rsqlite_rsync.Db.Pages.{page}
use rsqlite_rsync.Sync.View.{Databases, IsSized, pages_in, digest_of, replica_page}

-- A page within the bytes is sliced without a panic.
span : (p n size : ℕ) → 1 ≤ p → p ≤ n → (p - 1) * size + size ≤ n * size
span zero n size h k = elim h [ ]
span (suc p) n size h k = let e : suc p - 1 ≡ p = omega arith in rw e (grind arith)

pub page_slice_lem :
    (bytes : List ℕ) (n size p : ℕ)
    → length bytes ≡ n * size
    → 1 ≤ p
    → p ≤ n
    → page_slice bytes size p ≡ ok (page size bytes p)
unfolding page_slice
page_slice_lem bytes n size p e h k =
    rw (le→leb ((p - 1) * size + size) (length bytes) (rw e (span p n size h k))) refl

abbrev pub snapshot_of : Databases → Snapshot
snapshot_of v = record {
  bytes = v.origin_bytes;
  page_size = v.page_size;
  page_count = v.origin_pages;
}

-- The digests of all the replica's pages.
abbrev pub replica_hashes : Databases → List (List ℕ)
replica_hashes v = map (λ i. digest_of v (replica_page v (suc i))) (count_up 0 v.replica_pages)

module _ (v : Databases) (sized : IsSized v) where
  pub page_hash_list_lem :
      (rayon : Rayon) (tuning : SyncTuning)
      → page_hash_list v.digests rayon tuning v.algorithm v.replica_bytes v.page_size
          v.replica_pages
        ≡ ok (replica_hashes v)
  unfolding page_hash_list slice
  page_hash_list_lem rayon tuning =
      map_tuned_lem rayon tuning v.replica_pages _ (count_up 0 v.replica_pages)
      ∙ collect-count_up _ (λ i. digest_of v (replica_page v (suc i))) 0 v.replica_pages
          (λ p h k.
            let e : suc p - 1 ≡ p = omega arith in
            rw e (
              rw
                (le→leb (p * v.page_size + v.page_size) (length v.replica_bytes)
                  (rw sized.replica_length (grind arith)))
                refl))

  listed_digest :
      (p : ℕ)
      → 1 ≤ p
      → p ≤ v.replica_pages
      → or_panic (get_elem? (replica_hashes v) (p - 1)) ≡ ok (digest_of v (replica_page v p))
  listed_digest p h k =
      rw
        (get_elem?-count_up (λ i. digest_of v (replica_page v (suc i))) 0 v.replica_pages (p - 1)
          (omega arith))
        (ap (λ (q : ℕ). ok (digest_of v (replica_page v q))) {x = suc (0 + (p - 1))} {y = p}
          (omega arith))

  -- The replica lists the pages that it has in the group.
  pub group_listing_lem :
      (g : ℕ)
      → g * 64 < v.origin_pages
      → group_listing (replica_hashes v) v.replica_pages g
        ≡ ok (
          count_up (g * 64 + 1) (pages_in v.replica_pages g),
          map
              (λ p. digest_of v (replica_page v p))
              (count_up (g * 64 + 1) (pages_in v.replica_pages g)),
        )
  unfolding group_listing
  group_listing_lem g inside = elim (dec_lt (g * 64) v.replica_pages) [
    | yes h ↦
        rw (first, last, le→leb (g * 64 + 1) v.replica_pages (omega arith), amount)
          (rw
            (collect-count_up (λ p. or_panic (get_elem? (replica_hashes v) (p - 1)))
              (λ p. digest_of v (replica_page v p)) (g * 64 + 1) (pages_in v.replica_pages g)
              (λ p low high. listed_digest p (omega arith) (omega arith)))
            refl)
    | no h ↦
        rw (first, lt→leb_false (g * 64 + 1) v.replica_pages (grind arith), none_left (grind arith))
          refl
  ]
    where
      first : first_page_of g ≡ g * 64 + 1
      first = first_page_of_lem g (omega (arith, sized))

      last : last_page_of g ≡ g * 64 + 64
      last = last_page_of_lem g (omega (arith, sized))

      amount : suc (min (g * 64 + 64) v.replica_pages) - (g * 64 + 1) ≡ pages_in v.replica_pages g
      amount = omega arith

      none_left : v.replica_pages ≤ g * 64 → pages_in v.replica_pages g ≡ 0
      none_left h = omega arith
