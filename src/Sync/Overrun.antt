-- ===== src/Sync/Overrun.antt =====
-- src/protocol/origin.rs: a replica with more pages than the origin. The origin slices its snapshot at
-- every page that the replica lists.
use native.Mathlib.Decide.{ℕ_discrete}
use rsqlite_rsync.Base.{
  ℕ, zero, suc, ◌+◌, ◌-◌, ◌*◌, ◌≤◌, ◌<◌, ◌≡◌, refl, sym, ap, ◌⊎◌, inl, inr, List, [], ◌∷◌, map,
  length, count_up, length-count_up, slice, leb, bytes_eq, if◌then◌else◌, false, Option, none, some,
  arith,
}
use rsqlite_rsync.Hash.{HashAlgorithm, Digests, hash_page_for}
use rsqlite_rsync.Tuning.{SyncTuning}
use rsqlite_rsync.Snapshot.{Snapshot}
use rsqlite_rsync.Error.{Result, ok, panic, and_then, collect}
use rsqlite_rsync.Protocol.{Rayon}
use rsqlite_rsync.Protocol.Messages.{Message, PageData, page_hashes}
use rsqlite_rsync.Protocol.Process.{finish}
use rsqlite_rsync.Protocol.Origin.Acceptance.{InWord, validate_page_hashes_iff}
use rsqlite_rsync.Protocol.Origin.Coarse.{page_slice}
use rsqlite_rsync.Protocol.Origin.Fine.{pair_up, changed_page_for, fine_pass}
use rsqlite_rsync.Protocol.Origin.Strategy.{changed_pages_lem}
use rsqlite_rsync.Sync.{Session, step_origin}

module _ (d : Digests) (snap : Snapshot) (alg : HashAlgorithm)
    (whole : length snap.bytes ≡ snap.page_count * snap.page_size)
    (sized : 1 ≤ snap.page_size) where
  beyond : (p : ℕ) (h : List ℕ) → snap.page_count < p → changed_page_for d snap alg (p, h) ≡ panic
  unfolding changed_page_for page_slice slice
  beyond p h late =
      rw
        (too_long ((p - 1) * snap.page_size + snap.page_size) (length snap.bytes)
          (omega (arith, whole, scale snap.page_count (p - 1) (omega arith))))
        refl
    where
      scale : (a b : ℕ) → a ≤ b → a * snap.page_size ≤ b * snap.page_size
      scale a b h = grind arith

      too_long : (a b : ℕ) → b < a → leb a b ≡ false
      too_long a b h = ground arith

  -- A listed page is in the snapshot, or the origin panics there.
  no_error :
      (p : ℕ) (h : List ℕ)
      → ((found : Option PageData) × (changed_page_for d snap alg (p, h) ≡ ok found))
        ⊎ (changed_page_for d snap alg (p, h) ≡ panic)
  unfolding changed_page_for page_slice
  no_error p h = go (slice snap.bytes ((p - 1) * snap.page_size) snap.page_size) refl
    where
      go :
          (o : Option (List ℕ))
          → slice snap.bytes ((p - 1) * snap.page_size) snap.page_size ≡ o
          → ((found : Option PageData) × (changed_page_for d snap alg (p, h) ≡ ok found))
            ⊎ (changed_page_for d snap alg (p, h) ≡ panic)
      go none e = inr (rw e refl)
      go (some content) e = inl (
        if bytes_eq (hash_page_for d content alg) h
            then none
            else some (record { page_no = p; content = content }),
        rw e refl,
      )

  listed_beyond :
      (from n : ℕ) (hashes : List (List ℕ))
      → length hashes ≡ n
      → snap.page_count + 1 < from + n
      → 1 ≤ n
      → collect (map (changed_page_for d snap alg) (pair_up (count_up from n) hashes)) ≡ panic
  listed_beyond from zero hashes e late some_page = absurd (omega arith)
  listed_beyond from (suc n) [] e late some_page = absurd (omega arith)
  listed_beyond from (suc n) (h ∷ hs) e late some_page = elim (ℕ_discrete n 0) [
    | yes last ↦ rw (beyond from h (omega arith)) refl
    | no more ↦
        first_of (no_error from h)
          (listed_beyond (suc from) n hs (omega arith) (omega arith) (omega arith))
  ]
    where
      first_of :
          {x : Result (Option PageData)} {xs : Result (List (Option PageData))}
          → ((found : Option PageData) × (x ≡ ok found)) ⊎ (x ≡ panic)
          → xs ≡ panic
          → and_then x (λ a. and_then xs (λ as'. ok (a ∷ as'))) ≡ panic
      first_of (inl (found, e)) e' = rw (e, e') refl
      first_of (inr e) e' = rw e refl

  -- The origin panics on a listing that it accepts if the listing goes beyond its own last page: it
  -- passes the check of the listing, and the step in which the origin takes it from its queue leads to
  -- the panic. The snapshot has whole pages of at least one byte.
  pub overrun_panics :
      (rayon : Rayon) (tuning : SyncTuning) (group : ℕ) (rest : List ℕ) (hashes : List (List ℕ))
      (later : List Message) (s : Session)
      → InWord group
      → 1 ≤ length hashes
      → length hashes ≤ 64
      → snap.page_count < group * 64 + length hashes
      → s.origin ≡ fine_pass d rayon tuning snap alg (group ∷ rest)
      → s.to_origin ≡ page_hashes (count_up (group * 64 + 1) (length hashes)) hashes ∷ later
      → step_origin s ≡ some (record s { origin = finish panic; to_origin = later })
  unfolding step_origin fine_pass
  overrun_panics rayon tuning group rest hashes later s word one short late here queue =
      rw
        (
          here,
          queue,
          (validate_page_hashes_iff group _ hashes word).1 (
            ap (count_up (group * 64 + 1)) (sym (length-count_up _ _)),
            omega (arith, length-count_up (group * 64 + 1) (length hashes)),
            length-count_up _ _,
          ),
          changed_pages_lem d rayon tuning snap alg group,
          listed_beyond (group * 64 + 1) (length hashes) hashes refl (omega arith) one,
        )
        refl
