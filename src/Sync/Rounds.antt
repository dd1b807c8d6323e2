-- ===== src/Sync/Rounds.antt =====
-- src/protocol/replica.rs: the replica's file after the rounds of the fine pass.
use rsqlite_rsync.Base.{
  ℕ, ◌+◌, ◌-◌, ◌*◌, ◌/◌, ◌≤◌, ◌<◌, ◌≡◌, refl, sym, subst, ◌∙◌, ◌⊎◌, inl, inr, List, [], ◌∷◌, length,
  bytes_eq, true, arith,
}
use rsqlite_rsync.Sync.View.{
  Databases, IsSized, Among, origin_page, replica_page, sent_pages, refined_groups, replica_groups,
  origin_group_hash, replica_group_hash,
}
use rsqlite_rsync.Sync.Asked.{AllInside, refined_or_equal, refined-AllInside}
use rsqlite_rsync.Sync.Agreement.{NoCollision, group_agrees}
use rsqlite_rsync.Sync.Sent.{AreSent, sent_pages-AreSent, sent_or_same}
use rsqlite_rsync.Sync.Apply.{
  apply_pages, Holds, Keeps, apply-Holds, apply-Keeps, apply-among, apply-length, all-Holds,
}

-- The file after the rounds for `groups`.
unfoldable pub after_groups : Databases → List ℕ → List ℕ → List ℕ
after_groups v [] file = file
after_groups v (g ∷ gs) file = after_groups v gs (apply_pages v.page_size (sent_pages v g) file)

-- The 1-based page `p` lies in group `g`.
abbrev InGroup : ℕ → ℕ → Type 0
InGroup g p = (g * 64 + 1 ≤ p) × (p ≤ g * 64 + 64)

-- Between rounds: the file is no longer than the origin, every page of the replica is its old self
-- or the origin's, and every page is the origin's or lies in a group still to come.
abbrev Progress : (v : Databases) → IsSized v → List ℕ → List ℕ → Type 0
Progress v sized file groups =
    (length file ≤ v.origin_pages * v.page_size)
    × ((p : ℕ) → 1 ≤ p → p ≤ v.replica_pages → Keeps v sized file p)
    × ((p : ℕ)
        → 1 ≤ p
        → p ≤ v.origin_pages
        → Holds v sized file p ⊎ ((g : ℕ) × InGroup g p × Among g groups))

module _ (v : Databases) (sized : IsSized v) (apart : NoCollision v) where
  start-Progress : Progress v sized v.replica_bytes (refined_groups v)
  start-Progress = (
    omega (arith, sized.replica_length, scale v.replica_pages v.origin_pages sized.not_larger),
    λ p h k. (omega (arith, sized.replica_length, scale p v.replica_pages k), inl refl),
    λ p h k. first_look p h k (refined_or_equal v sized ((p - 1) / 64) (omega arith)),
  )
    where
      scale : (a b : ℕ) → a ≤ b → a * v.page_size ≤ b * v.page_size
      scale a b h = grind arith

      settled :
          (p : ℕ)
          → (p ≤ v.replica_pages) × (origin_page v p ≡ replica_page v p)
          → Holds v sized v.replica_bytes p
      settled p (old, same) =
          (omega (arith, sized.replica_length, scale p v.replica_pages old), sym same)

      first_look :
          (p : ℕ)
          → 1 ≤ p
          → p ≤ v.origin_pages
          → Among ((p - 1) / 64) (refined_groups v)
            ⊎ (((p - 1) / 64 < replica_groups v)
                × (bytes_eq
                      (origin_group_hash v ((p - 1) / 64))
                      (replica_group_hash v ((p - 1) / 64))
                    ≡ true))
          → Holds v sized v.replica_bytes p ⊎ ((g : ℕ) × InGroup g p × Among g (refined_groups v))
      first_look p h k (inl m) = inr ((p - 1) / 64, (omega arith, omega arith), m)
      first_look p h k (inr (known, same)) = inl (
          settled p
            (group_agrees v sized apart ((p - 1) / 64) p known same (omega arith) (omega arith) k))

  group-Holds :
      (file : List ℕ) (g p : ℕ)
      → g * 64 < v.origin_pages
      → InGroup g p
      → p ≤ v.origin_pages
      → ((q : ℕ) → 1 ≤ q → q ≤ v.replica_pages → Keeps v sized file q)
      → Holds v sized (apply_pages v.page_size (sent_pages v g) file) p
  group-Holds file g p inside (low, high) within keeps =
      elim (sent_or_same v sized g inside p low high within) [
        | inl m ↦
            apply-among v sized (sent_pages v g) file p (sent_pages-AreSent v sized g inside)
              (omega arith) m
        | inr (old, same) ↦
            apply-Holds v sized (sent_pages v g) file p (sent_pages-AreSent v sized g inside)
              (omega arith)
              (settle (keeps p (omega arith) old) (apart.page_apart p (omega arith) old same))
      ]
    where
      settle : Keeps v sized file p → origin_page v p ≡ replica_page v p → Holds v sized file p
      settle (inside', inl e) same = (inside', e ∙ sym same)
      settle (inside', inr e) same = (inside', e)

  round-Progress :
      (file : List ℕ) (g : ℕ) (gs : List ℕ)
      → g * 64 < v.origin_pages
      → Progress v sized file (g ∷ gs)
      → Progress v sized (apply_pages v.page_size (sent_pages v g) file) gs
  round-Progress file g gs inside (short, keeps, pages) = (
    apply-length v sized (sent_pages v g) file sent short,
    λ p h k. apply-Keeps v sized (sent_pages v g) file p sent h (keeps p h k),
    λ p h k. next p h k (pages p h k),
  )
    where
      sent : AreSent v (sent_pages v g)
      sent = sent_pages-AreSent v sized g inside

      next :
          (p : ℕ)
          → 1 ≤ p
          → p ≤ v.origin_pages
          → Holds v sized file p ⊎ ((g' : ℕ) × InGroup g' p × Among g' (g ∷ gs))
          → Holds v sized (apply_pages v.page_size (sent_pages v g) file) p
            ⊎ ((g' : ℕ) × InGroup g' p × Among g' gs)
      next p h k (inl done) = inl (apply-Holds v sized (sent_pages v g) file p sent h done)
      next p h k (inr (g', within, inl e)) =
          inl (group-Holds file g p inside (subst (λ (x : ℕ). InGroup x p) e within) k keeps)
      next p h k (inr (g', within, inr m)) = inr (g', within, m)

  -- After all the rounds the file is the origin's.
  rounds-eq :
      (gs file : List ℕ)
      → AllInside v.origin_pages gs
      → Progress v sized file gs
      → after_groups v gs file ≡ v.origin_bytes
  unfolding after_groups
  rounds-eq [] file inside (short, keeps, pages) =
      all-Holds v sized file short (λ p h k. settled (pages p h k))
    where
      settled :
          {p : ℕ}
          → Holds v sized file p ⊎ ((g : ℕ) × InGroup g p × Among g [])
          → Holds v sized file p
      settled (inl h) = h
      settled (inr (g, within, m)) = absurd m
  rounds-eq (g ∷ gs) file inside progress =
      rounds-eq gs _ inside.1 (round-Progress file g gs inside.0 progress)

  pub after_refined : after_groups v (refined_groups v) v.replica_bytes ≡ v.origin_bytes
  after_refined =
      rounds-eq (refined_groups v) v.replica_bytes (refined-AllInside v sized) start-Progress
