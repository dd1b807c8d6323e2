-- ===== src/Sync/Groups.antt =====
-- src/protocol/origin.rs, src/protocol/replica.rs: the group hashes that the replica sends, the groups that
-- the origin asks for, and the pages that it sends for one group.
use rsqlite_rsync.Base.{
  ℕ, zero, suc, ◌+◌, ◌-◌, ◌*◌, ◌≤◌, ◌<◌, ◌≡◌, refl, ap, ◌∙◌, List, [], ◌∷◌, map, Option, some,
  count_up, min, enumerate, le→leb, length-count_up, arith,
}
use rsqlite_rsync.Hash.{hash_group_for}
use rsqlite_rsync.Tuning.{SyncTuning}
use rsqlite_rsync.Error.{ok}
use rsqlite_rsync.Protocol.{Rayon, u32, groups_per_chunk}
use rsqlite_rsync.Protocol.Chunks.{map_tuned_lem, chunked_lem, map-Splits}
use rsqlite_rsync.Protocol.Collect.{collect-count_up, slice-count_up}
use rsqlite_rsync.Protocol.Origin.Acceptance.{first_page_of_lem, last_page_of_lem, count_up_at}
use rsqlite_rsync.Protocol.Origin.Fine.{
  pair_up, list_max, max_with, next_missing, changed_page_for, missing_page, changed_pages,
}
use rsqlite_rsync.Protocol.Origin.Strategy.{changed_pages_lem, groups_per_chunk_pos}
use rsqlite_rsync.Protocol.Replica.{hash_of_group, group_hash_list}
use rsqlite_rsync.Sync.View.{
  Databases, IsSized, pages_in, digest_of, replica_page, replica_group_hash, replica_groups,
  page_data, changed, sent_pages,
}
use rsqlite_rsync.Sync.Listing.{page_slice_lem, snapshot_of, replica_hashes}

pub map-map :
    {A B C : Type 0} (f : B → C) (g : A → B) (xs : List A)
    → map f (map g xs) ≡ map (λ x. f (g x)) xs
map-map f g [] = refl
map-map f g (x ∷ xs) = ap (◌∷◌ (f (g x))) (map-map f g xs)

map-count_up-suc :
    {B : Type 0} (f : ℕ → B) (a n : ℕ)
    → map (λ i. f (suc i)) (count_up a n) ≡ map f (count_up (suc a) n)
map-count_up-suc f a zero = refl
map-count_up-suc f a (suc n) = ap (◌∷◌ (f (suc a))) (map-count_up-suc f (suc a) n)

pair_up-count_up :
    (h : ℕ → List ℕ) (a n : ℕ)
    → pair_up (count_up a n) (map h (count_up a n)) ≡ map (λ p. (p, h p)) (count_up a n)
pair_up-count_up h a zero = refl
pair_up-count_up h a (suc n) = ap (◌∷◌ (a, h a)) (pair_up-count_up h (suc a) n)

list_max-count_up : (a n : ℕ) → list_max (count_up a (suc n)) ≡ some (a + n)
list_max-count_up a zero = ap some (omega arith)
list_max-count_up a (suc n) =
    ap (λ (o : Option ℕ). some (max_with a o)) (list_max-count_up (suc a) n) ∙ ap some (omega arith)

pub enumerate-count_up :
    {B : Type 0} (g : ℕ → B) (s n : ℕ)
    → enumerate s (map g (count_up s n)) ≡ map (λ i. (i, g i)) (count_up s n)
enumerate-count_up g s zero = refl
enumerate-count_up g s (suc n) = ap (◌∷◌ (s, g s)) (enumerate-count_up g (suc s) n)

module _ (v : Databases) (sized : IsSized v) where
  -- The page after the last one listed.
  next_missing_lem :
      (g k : ℕ)
      → g * 64 < v.origin_pages
      → k ≤ 64
      → next_missing (list_max (count_up (g * 64 + 1) k)) (g * 64 + 1) ≡ g * 64 + 1 + k
  next_missing_lem g zero inside h = omega arith
  next_missing_lem g (suc k) inside h =
      ap (λ (o : Option ℕ). next_missing o (g * 64 + 1)) (list_max-count_up (g * 64 + 1) k)
      ∙ omega (arith, sized)

  -- The origin computes the pages to send for a listed group.
  pub changed_pages_view :
      (rayon : Rayon) (tuning : SyncTuning) (g : ℕ)
      → g * 64 < v.origin_pages
      → changed_pages v.digests rayon tuning
          (snapshot_of v)
          v.algorithm
          g
          (count_up (g * 64 + 1) (pages_in v.replica_pages g))
          (map
            (λ p. digest_of v (replica_page v p))
            (count_up (g * 64 + 1) (pages_in v.replica_pages g)))
        ≡ ok (sent_pages v g)
  unfolding changed_page_for missing_page sent_pages
  changed_pages_view rayon tuning g inside =
      changed_pages_lem v.digests rayon tuning (snapshot_of v) v.algorithm g _ _
      ∙ rw
          (
            pair_up-count_up (λ p. digest_of v (replica_page v p)) (g * 64 + 1)
                (pages_in v.replica_pages g),
            map-map (changed_page_for v.digests (snapshot_of v) v.algorithm)
                (λ p. (p, digest_of v (replica_page v p)))
                (count_up (g * 64 + 1) (pages_in v.replica_pages g)),
            first_page_of_lem g (omega (arith, sized)),
            last_page_of_lem g (omega (arith, sized)),
            next_missing_lem g (pages_in v.replica_pages g) inside (omega arith),
            collect-count_up
                (λ p.
                  changed_page_for v.digests (snapshot_of v) v.algorithm
                    (p, digest_of v (replica_page v p)))
                (changed v) (g * 64 + 1) (pages_in v.replica_pages g)
                (λ p low high.
                  rw
                    (page_slice_lem v.origin_bytes v.origin_pages v.page_size p sized.origin_length
                      (omega arith) (omega (arith, sized)))
                    refl),
          )
          (rw
            (
              amount,
              collect-count_up (missing_page (snapshot_of v)) (page_data v)
                  (g * 64 + 1 + pages_in v.replica_pages g)
                  (pages_in v.origin_pages g - pages_in v.replica_pages g)
                  (λ p low high.
                    rw
                      (page_slice_lem v.origin_bytes v.origin_pages v.page_size p
                        sized.origin_length (omega arith) (omega (arith, sized)))
                      refl),
            )
            refl)
    where
      amount :
          suc (min (g * 64 + 64) v.origin_pages) - (g * 64 + 1 + pages_in v.replica_pages g)
          ≡ pages_in v.origin_pages g - pages_in v.replica_pages g
      amount = omega (arith, sized)

  -- The hash of one of the replica's groups.
  hash_of_group_lem :
      (g : ℕ)
      → g < replica_groups v
      → hash_of_group v.digests v.algorithm (replica_hashes v) v.replica_pages g
        ≡ ok (replica_group_hash v g)
  unfolding hash_of_group
  hash_of_group_lem g h =
      rw (same, first_page_of_lem g small, last_page_of_lem g small, start)
        (rw (le→leb (g * 64) (min (g * 64 + 64) v.replica_pages) (omega (arith, h))) (
          rw
            (slice-count_up (λ i. digest_of v (replica_page v (suc i))) v.replica_pages (g * 64)
              (pages_in v.replica_pages g) (omega (arith, h)))
            (ap (λ (hs : List (List ℕ)). ok (hash_group_for v.digests hs v.algorithm))
              (map-count_up-suc (λ p. digest_of v (replica_page v p)) (g * 64)
                  (pages_in v.replica_pages g)
                ∙ ap (map (λ p. digest_of v (replica_page v p))) (
                    count_up_at (suc (g * 64)) (g * 64 + 1) (pages_in v.replica_pages g)
                      (omega arith))))))
    where
      small : g * 64 + 64 < 4294967296
      small = omega (arith, sized, h)

      same : u32 g ≡ g
      same = omega (arith, small)

      start : g * 64 + 1 - 1 ≡ g * 64
      start = omega arith

  -- The replica sends the hash of each of its groups.
  pub group_hash_list_lem :
      (rayon : Rayon) (tuning : SyncTuning)
      → group_hash_list v.digests rayon tuning v.algorithm (replica_hashes v) v.replica_pages
        ≡ ok (map (replica_group_hash v) (count_up 0 (replica_groups v)))
  unfolding group_hash_list
  group_hash_list_lem rayon tuning =
      chunked_lem _ _ (groups_per_chunk tuning)
        (map-Splits (hash_of_group v.digests v.algorithm (replica_hashes v) v.replica_pages))
        (λ s xs. map_tuned_lem rayon tuning _ _ xs) (groups_per_chunk_pos tuning) (replica_groups v)
        0 (count_up 0 (replica_groups v)) (omega (arith, length-count_up 0 (replica_groups v)))
      ∙ collect-count_up _ (replica_group_hash v) 0 (replica_groups v)
          (λ p low high. hash_of_group_lem p (omega arith))
