-- ===== src/Ha/Runtime/Safety.antt =====
-- src/ha.rs: when a node is a writer after a tick, and what holds of it over any run of ticks.
use mathlib.Core.Option.{some-injective}
use rsqlite_rsync.Base.{
  ℕ, Option, none, some, ◌≡◌, ◌≢◌, refl, sym, ap, subst, ◌∙◌, ◌↔◌, ◌⊎◌, inl, inr, arith,
}
use rsqlite_rsync.Ha.Lease.{
  LeaseRecord, PromotionConfig, PromotionRequest, NodeRole, writer, replica,
}
use rsqlite_rsync.Ha.Fence.{pass, enforce_write_fence, validate_promotion}
use rsqlite_rsync.Ha.Fence.Rules.{
  MayWrite, HasFresh, enforce_write_fence_iff, validate_promotion_iff,
}
use rsqlite_rsync.Ha.Runtime.{HaRuntime, reconcile_with_outcome}

-- The request that a replica makes for a lease.
abbrev pub request_for : HaRuntime → ℕ → LeaseRecord → PromotionRequest
request_for r min_generation lease = record {
  candidate_node_id = r.node_id;
  target_generation = lease.generation;
  min_source_generation = min_generation;
}

-- Why a node is a writer after a tick with this lease: it was one and passes the fence, or it was a
-- replica and may be promoted.
pub data Justified (r : HaRuntime) (now min_generation : ℕ) (config : PromotionConfig)
    (lease : LeaseRecord) : Type 0 where
  stays :
      r.role ≡ writer
      → MayWrite now r.node_id r.local_generation lease
      → Justified r now min_generation config lease
  promoted :
      r.role ≡ replica
      → MayWrite now r.node_id lease.generation lease
      → HasFresh now (request_for r min_generation lease) config r.freshness
      → Justified r now min_generation config lease

abbrev pub next : HaRuntime → ℕ → Option LeaseRecord → ℕ → PromotionConfig → HaRuntime
next r now lease min_generation config =
    (reconcile_with_outcome r now lease min_generation config).0

pub role_cases : (x : NodeRole) → (x ≡ writer) ⊎ (x ≡ replica)
role_cases writer = inl refl
role_cases replica = inr refl

module _ (r : HaRuntime) (now min_generation : ℕ) (config : PromotionConfig) where
  as_writer :
      (lease : LeaseRecord)
      → r.role ≡ writer
      → (next r now (some lease) min_generation config).role ≡ writer
      → enforce_write_fence now r.node_id r.local_generation lease ≡ pass
  unfolding reconcile_with_outcome
  as_writer lease was is = ground arith

  as_replica :
      (lease : LeaseRecord)
      → r.role ≡ replica
      → (next r now (some lease) min_generation config).role ≡ writer
      → validate_promotion now lease (request_for r min_generation lease) r.freshness config ≡ pass
  unfolding reconcile_with_outcome
  as_replica lease was is = ground arith

  stays_writer :
      (lease : LeaseRecord)
      → r.role ≡ writer
      → enforce_write_fence now r.node_id r.local_generation lease ≡ pass
      → (next r now (some lease) min_generation config).role ≡ writer
  unfolding reconcile_with_outcome
  stays_writer lease was fence = ground arith

  becomes_writer :
      (lease : LeaseRecord)
      → r.role ≡ replica
      → validate_promotion now lease (request_for r min_generation lease) r.freshness config ≡ pass
      → (next r now (some lease) min_generation config).role ≡ writer
  unfolding reconcile_with_outcome
  becomes_writer lease was allowed = ground arith

  pub no_lease_no_writer : (next r now none min_generation config).role ≡ replica
  unfolding reconcile_with_outcome
  no_lease_no_writer = ground arith

  Justified-of_writer :
      (lease : LeaseRecord)
      → (next r now (some lease) min_generation config).role ≡ writer
      → Justified r now min_generation config lease
  Justified-of_writer lease is = elim (role_cases r.role) [
    | inl was ↦ stays was (
        (enforce_write_fence_iff now r.node_id r.local_generation lease).0 (as_writer lease was is))
    | inr was ↦
        let (held, fresh) =
          (validate_promotion_iff now lease (request_for r min_generation lease) r.freshness
              config).0
            (as_replica lease was is) in
        promoted was held fresh
  ]

  writer_of_Justified :
      (lease : LeaseRecord)
      → Justified r now min_generation config lease
      → (next r now (some lease) min_generation config).role ≡ writer
  writer_of_Justified lease (stays was held) =
      stays_writer lease was
        ((enforce_write_fence_iff now r.node_id r.local_generation lease).1 held)
  writer_of_Justified lease (promoted was held fresh) = becomes_writer lease was (
      (validate_promotion_iff now lease (request_for r min_generation lease) r.freshness config).1
        (held, fresh))

  -- After a tick a node is a writer exactly if there is a lease and the node either was a writer and
  -- passes the write fence, or was a replica and meets every condition of a promotion.
  pub writer_iff :
      (lease : Option LeaseRecord)
      → ((next r now lease min_generation config).role ≡ writer)
        ↔ ((l : LeaseRecord) × (lease ≡ some l) × Justified r now min_generation config l)
  writer_iff none = (λ h. absurd (apart h), λ h. let absent = h.1 in cc)
    where
      apart : (next r now none min_generation config).role ≢ writer
      apart h = let stopped = no_lease_no_writer in cc
  writer_iff (some lease) = (
    λ h. (lease, refl, Justified-of_writer lease h),
    λ h.
        subst (λ l. (next r now (some l) min_generation config).role ≡ writer)
          (sym (some-injective _ _ h.1)) (writer_of_Justified h.0 h.2),
  )

  -- A tick keeps the node's name and records the lease that it saw.
  pub next_keeps :
      (lease : Option LeaseRecord)
      → ((next r now lease min_generation config).node_id ≡ r.node_id)
        × ((next r now lease min_generation config).lease ≡ lease)
  unfolding reconcile_with_outcome
  next_keeps none = ground arith
  next_keeps (some lease) = ground arith

  pub promoted_generation :
      (lease : LeaseRecord)
      → r.role ≡ replica
      → (next r now (some lease) min_generation config).role ≡ writer
      → (next r now (some lease) min_generation config).local_generation ≡ lease.generation
  unfolding reconcile_with_outcome
  promoted_generation lease was is = ground arith

  kept_generation :
      (lease : LeaseRecord)
      → r.role ≡ writer
      → (next r now (some lease) min_generation config).local_generation ≡ r.local_generation
  unfolding reconcile_with_outcome
  kept_generation lease was = ground arith

  -- A node that is a writer after a tick holds the lease it saw, in force and at its own generation.
  pub writer_holds :
      (lease : Option LeaseRecord)
      → (next r now lease min_generation config).role ≡ writer
      → (l : LeaseRecord) × (lease ≡ some l)
        × MayWrite now r.node_id (next r now lease min_generation config).local_generation l
  writer_holds none h = let stopped = no_lease_no_writer in cc
  writer_holds (some lease) h = (lease, refl, held (Justified-of_writer lease h))
    where
      held :
          Justified r now min_generation config lease
          → MayWrite now r.node_id
              (next r now (some lease) min_generation config).local_generation
              lease
      held (stays was m) =
          subst (λ (g : ℕ). MayWrite now r.node_id g lease) (sym (kept_generation lease was)) m
      held (promoted was m fresh) =
          subst (λ (g : ℕ). MayWrite now r.node_id g lease) (sym (promoted_generation lease was h))
            m

-- Two nodes that see one lease, whatever their states, clocks and settings, are not both writers
-- after their ticks, unless they go by one name.
pub single_writer :
    (r r' : HaRuntime) (now now' min_generation min_generation' : ℕ)
    (config config' : PromotionConfig) (lease : Option LeaseRecord)
    → r.node_id ≢ r'.node_id
    → (next r now lease min_generation config).role ≡ writer
    → (next r' now' lease min_generation' config').role ≢ writer
single_writer r r' now now' min_generation min_generation' config config' lease apart is is' =
    let (l, e, held) = writer_holds r now min_generation config lease is in
    let (l', e', held') = writer_holds r' now' min_generation' config' lease is' in
    apart
      (sym held.holder ∙ ap (λ (x : LeaseRecord). x.holder_node_id) (same l l' e e') ∙ held'.holder)
  where
    same : (l l' : LeaseRecord) → lease ≡ some l → lease ≡ some l' → l ≡ l'
    same l l' e e' = some-injective _ _ (sym e ∙ e')
