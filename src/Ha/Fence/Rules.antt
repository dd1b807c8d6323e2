-- ===== src/Ha/Fence/Rules.antt =====
-- src/ha.rs: the conditions for a node to write and to be promoted.
use text.Mathlib.TextEquality.{eq_iff}
use mathlib.Core.Option.{some-injective}
use rsqlite_rsync.Base.{ℕ, String, Option, none, some, ◌+◌, ◌≤◌, ◌≡◌, refl, sym, subst, ◌↔◌, arith}
use rsqlite_rsync.Ha.Lease.{
  LeaseRecord, FreshnessLedger, PromotionConfig, PromotionRequest, saturating_add,
}
use rsqlite_rsync.Ha.Fence.{pass, enforce_write_fence, check_freshness, validate_promotion}

-- The node holds the lease, at this generation and time.
pub record MayWrite (now : ℕ) (node : String) (generation : ℕ) (lease : LeaseRecord) : Type 0 where
  pub in_time : now ≤ saturating_add lease.renewed_at_secs lease.ttl_secs
  pub holder : lease.holder_node_id ≡ node
  pub current : lease.generation ≡ generation

-- The write fence lets a node pass exactly if the lease has not run out, names the node as its
-- holder and has the node's generation.
pub enforce_write_fence_iff :
    (now : ℕ) (node : String) (generation : ℕ) (lease : LeaseRecord)
    → (enforce_write_fence now node generation lease ≡ pass) ↔ MayWrite now node generation lease
unfolding enforce_write_fence
enforce_write_fence_iff now node generation lease = (
  λ h. ground (arith, eq_iff lease.holder_node_id node),
  λ h. ground (arith, eq_iff lease.holder_node_id node),
)

-- A ledger that is recent, not from the future and of a new enough generation.
pub record IsFresh (now : ℕ) (request : PromotionRequest) (config : PromotionConfig)
    (ledger : FreshnessLedger) : Type 0 where
  pub not_future : ledger.synced_at_secs ≤ saturating_add now config.max_future_skew_secs
  pub recent : now ≤ ledger.synced_at_secs + config.max_freshness_age_secs
  pub lineage : request.min_source_generation ≤ ledger.source_generation

check_freshness-IsFresh :
    (now : ℕ) (request : PromotionRequest) (config : PromotionConfig) (ledger : FreshnessLedger)
    → check_freshness now request config (some ledger) ≡ pass
    → IsFresh now request config ledger
unfolding check_freshness
check_freshness-IsFresh now request config ledger h = ground arith

IsFresh-check_freshness :
    (now : ℕ) (request : PromotionRequest) (config : PromotionConfig) (ledger : FreshnessLedger)
    → IsFresh now request config ledger
    → check_freshness now request config (some ledger) ≡ pass
unfolding check_freshness
IsFresh-check_freshness now request config ledger h = ground arith

-- There is a ledger, and it is fresh.
abbrev pub HasFresh : ℕ → PromotionRequest → PromotionConfig → Option FreshnessLedger → Type 0
HasFresh now request config freshness =
    (ledger : FreshnessLedger) × (freshness ≡ some ledger) × IsFresh now request config ledger

freshness_iff :
    (now : ℕ) (request : PromotionRequest) (config : PromotionConfig)
    (freshness : Option FreshnessLedger)
    → (check_freshness now request config freshness ≡ pass) ↔ HasFresh now request config freshness
unfolding check_freshness
freshness_iff now request config none = (λ h. cc, λ h. let absent = h.1 in cc)
freshness_iff now request config (some ledger) = (
  λ h. (ledger, refl, check_freshness-IsFresh now request config ledger h),
  λ h.
      IsFresh-check_freshness now request config ledger
        (subst (IsFresh now request config) (sym (some-injective _ _ h.1)) h.2),
)

lease_part :
    (now : ℕ) (lease : LeaseRecord) (request : PromotionRequest)
    (freshness : Option FreshnessLedger) (config : PromotionConfig)
    → (validate_promotion now lease request freshness config ≡ pass) ↔ (
        MayWrite now request.candidate_node_id request.target_generation lease
        × (check_freshness now request config freshness ≡ pass))
unfolding validate_promotion
lease_part now lease request freshness config = (
  λ h. ground (arith, eq_iff lease.holder_node_id request.candidate_node_id),
  λ h. ground (arith, eq_iff lease.holder_node_id request.candidate_node_id),
)

-- A promotion is allowed exactly if the candidate holds a lease in force, at the target generation,
-- and there is a fresh ledger.
pub validate_promotion_iff :
    (now : ℕ) (lease : LeaseRecord) (request : PromotionRequest)
    (freshness : Option FreshnessLedger) (config : PromotionConfig)
    → (validate_promotion now lease request freshness config ≡ pass) ↔ (
        MayWrite now request.candidate_node_id request.target_generation lease
        × HasFresh now request config freshness)
validate_promotion_iff now lease request freshness config = (
  λ h.
      let (held, fresh) = (lease_part now lease request freshness config).0 h in
      (held, (freshness_iff now request config freshness).0 fresh),
  λ h.
      (lease_part now lease request freshness config).1
        (h.0, (freshness_iff now request config freshness).1 h.1),
)
