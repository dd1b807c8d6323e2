-- ===== src/Sync/Asked.antt =====
-- src/protocol/origin.rs: the groups that the origin asks for, on whole databases.
use native.Mathlib.Decide.{dec_lt, ℕ_discrete}
use rsqlite_rsync.Base.{
  ℕ, zero, suc, ◌+◌, ◌-◌, ◌*◌, ◌≤◌, ◌<◌, ◌≡◌, refl, ap, ◌∙◌, ◌⊎◌, inl, inr, List, [], ◌∷◌, ◌++◌,
  map, Option, none, some, count_up, flatten_options, bytes_eq, min, Bool, true, Bool-cases,
  if◌then◌else◌, le→ltb_false, arith,
}
use rsqlite_rsync.Tuning.{SyncTuning}
use rsqlite_rsync.Error.{ok}
use rsqlite_rsync.Protocol.{Rayon, u32}
use rsqlite_rsync.Protocol.Collect.{collect-count_up, length-map-count_up}
use rsqlite_rsync.Protocol.Origin.Acceptance.{first_page_of_lem, last_page_of_lem}
use rsqlite_rsync.Protocol.Origin.Coarse.{hash_of_page, compare_group, groups_to_refine}
use rsqlite_rsync.Protocol.Origin.Strategy.{groups_to_refine_lem}
use rsqlite_rsync.Sync.View.{
  Databases, IsSized, Among, pages_in, digest_of, origin_page, replica_group_hash,
  origin_group_hash, replica_groups, differing, refined_groups,
}
use rsqlite_rsync.Sync.Listing.{page_slice_lem, snapshot_of}
use rsqlite_rsync.Sync.Groups.{map-map, enumerate-count_up}

module _ (v : Databases) (sized : IsSized v) where
  compare_group_lem :
      (g : ℕ)
      → g < replica_groups v
      → compare_group v.digests v.algorithm (snapshot_of v) 0 (g, replica_group_hash v g)
        ≡ ok (differing v g)
  unfolding compare_group hash_of_page
  compare_group_lem g h =
      rw (same, first_page_of_lem g small, last_page_of_lem g small)
        (rw (le→ltb_false v.origin_pages (g * 64 + 1) (omega (arith, sized, h)), amount)
          (rw
            (collect-count_up (hash_of_page v.digests v.algorithm (snapshot_of v))
              (λ p. digest_of v (origin_page v p)) (g * 64 + 1) (pages_in v.origin_pages g)
              (λ p low high.
                rw
                  (page_slice_lem v.origin_bytes v.origin_pages v.page_size p sized.origin_length
                    (omega arith) (omega arith))
                  refl))
            refl))
    where
      small : g * 64 + 64 < 4294967296
      small = omega (arith, sized, h)

      same : u32 (0 + u32 g) ≡ g
      same = omega (arith, small)

      amount : suc (min (g * 64 + 64) v.origin_pages) - (g * 64 + 1) ≡ pages_in v.origin_pages g
      amount = omega arith

  pub groups_to_refine_view :
      (rayon : Rayon) (tuning : SyncTuning)
      → groups_to_refine v.digests v.algorithm
          (snapshot_of v)
          rayon
          tuning
          0
          (map (replica_group_hash v) (count_up 0 (replica_groups v)))
        ≡ ok (refined_groups v)
  unfolding refined_groups
  groups_to_refine_view rayon tuning =
      groups_to_refine_lem v.digests v.algorithm (snapshot_of v) rayon tuning 0 _
      ∙ rw
          (
            enumerate-count_up (replica_group_hash v) 0 (replica_groups v),
            map-map (compare_group v.digests v.algorithm (snapshot_of v) 0)
                (λ i. (i, replica_group_hash v i)) (count_up 0 (replica_groups v)),
            collect-count_up
                (λ i.
                  compare_group v.digests v.algorithm (snapshot_of v) 0 (i, replica_group_hash v i))
                (differing v) 0 (replica_groups v)
                (λ p low high. compare_group_lem p (omega arith)),
            length-map-count_up (replica_group_hash v) 0 (replica_groups v),
            known,
          )
          refl
    where
      known : u32 (0 + u32 (replica_groups v)) ≡ replica_groups v
      known = omega (arith, sized)

Among-append_left : (a : ℕ) (xs ys : List ℕ) → Among a xs → Among a (xs ++ ys)
Among-append_left a (x ∷ xs) ys (inl e) = inl e
Among-append_left a (x ∷ xs) ys (inr h) = inr (Among-append_left a xs ys h)
Among-append_left a [] ys h = elim h [ ]

Among-append_right : (a : ℕ) (xs ys : List ℕ) → Among a ys → Among a (xs ++ ys)
Among-append_right a [] ys h = h
Among-append_right a (x ∷ xs) ys h = inr (Among-append_right a xs ys h)

Among-count_up : (a from n : ℕ) → from ≤ a → a < from + n → Among a (count_up from n)
Among-count_up a from zero h k = absurd (omega arith)
Among-count_up a from (suc n) h k = elim (ℕ_discrete a from) [
  | yes e ↦ inl e
  | no e ↦ inr (Among-count_up a (suc from) n (grind arith) (omega arith))
]

Among-now :
    (a : ℕ) (o : Option ℕ) (xs : List (Option ℕ)) → o ≡ some a → Among a (flatten_options (o ∷ xs))
Among-now a none xs e = cc
Among-now a (some x) xs e = inl (ground arith)

Among-later :
    (a : ℕ) (o : Option ℕ) (xs : List (Option ℕ))
    → Among a (flatten_options xs)
    → Among a (flatten_options (o ∷ xs))
Among-later a none xs h = h
Among-later a (some x) xs h = inr h

Among-flatten :
    (f : ℕ → Option ℕ) (a from n : ℕ)
    → from ≤ a
    → a < from + n
    → f a ≡ some a
    → Among a (flatten_options (map f (count_up from n)))
Among-flatten f a from zero h k e = absurd (omega arith)
Among-flatten f a from (suc n) h k e = elim (ℕ_discrete from a) [
  | yes here ↦ Among-now a (f from) _ (ap f here ∙ e)
  | no other ↦
      Among-later a (f from) _ (Among-flatten f a (suc from) n (grind arith) (omega arith) e)
]

-- Every group of a list holds pages of the origin.
abbrev pub AllInside : ℕ → List ℕ → Type 0
AllInside n [] = Unit {0}
AllInside n (g ∷ gs) = (g * 64 < n) × AllInside n gs

AllInside-append :
    (n : ℕ) (xs ys : List ℕ) → AllInside n xs → AllInside n ys → AllInside n (xs ++ ys)
AllInside-append n [] ys h k = k
AllInside-append n (x ∷ xs) ys h k = (h.0, AllInside-append n xs ys h.1 k)

AllInside-count_up :
    (n from m : ℕ)
    → ((g : ℕ) → from ≤ g → g < from + m → g * 64 < n)
    → AllInside n (count_up from m)
AllInside-count_up n from zero h = tt
AllInside-count_up n from (suc m) h = (
  h from (omega arith) (omega arith),
  AllInside-count_up n (suc from) m (λ g low high. h g (omega arith) (omega arith)),
)

AllInside-chosen :
    (n : ℕ) (f : ℕ → Bool) (from m : ℕ)
    → ((g : ℕ) → from ≤ g → g < from + m → g * 64 < n)
    → AllInside n (flatten_options (map (λ g. if f g then none else some g) (count_up from m)))
AllInside-chosen n f from zero h = tt
AllInside-chosen n f from (suc m) h =
    let rest = AllInside-chosen n f (suc from) m (λ g low high. h g (omega arith) (omega arith)) in
    elim (Bool-cases (f from)) [
      | inl e ↦ rw e rest
      | inr e ↦ rw e (h from (omega arith) (omega arith), rest)
    ]

module _ (v : Databases) (sized : IsSized v) where
  -- Each group of the origin is asked for, or is one whose hashes agree.
  pub refined_or_equal :
      (g : ℕ)
      → g * 64 < v.origin_pages
      → Among g (refined_groups v)
        ⊎ ((g < replica_groups v)
            × (bytes_eq (origin_group_hash v g) (replica_group_hash v g) ≡ true))
  unfolding refined_groups
  refined_or_equal g h = elim (dec_lt g (replica_groups v)) [
    | yes known ↦ elim (Bool-cases (bytes_eq (origin_group_hash v g) (replica_group_hash v g))) [
      | inl same ↦ inr (known, same)
      | inr apart ↦ inl (
          Among-append_left g _ _ (
            Among-flatten (differing v) g 0 (replica_groups v) (omega arith) (omega (arith, known))
              (rw apart refl)))
    ]
    | no new ↦ inl (
        Among-append_right g (flatten_options (map (differing v) (count_up 0 (replica_groups v)))) _
          (Among-count_up g (replica_groups v) _ (grind arith) (grind arith)))
  ]

  -- The origin asks for no group beyond its last page.
  pub refined-AllInside : AllInside v.origin_pages (refined_groups v)
  unfolding refined_groups
  refined-AllInside =
      AllInside-append v.origin_pages _ _
        (AllInside-chosen v.origin_pages
          (λ g. bytes_eq (origin_group_hash v g) (replica_group_hash v g)) 0 (replica_groups v)
          (λ g low high. omega (arith, sized, high)))
        (AllInside-count_up v.origin_pages (replica_groups v) _
          (λ g low high. omega (arith, sized, high)))
