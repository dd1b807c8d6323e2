-- ===== src/Ha/Fence.antt =====
-- src/ha.rs: `enforce_write_fence` and `validate_promotion`, the checks in their order.
pub mod Rules
use rsqlite_rsync.Base.{ℕ, String, Option, none, some, ◌-◌, ltb, ◌==◌, not, if◌then◌else◌}
use rsqlite_rsync.Ha.Lease.{
  LeaseRecord, FreshnessLedger, PromotionConfig, PromotionRequest, WriteFenceViolation,
  PromotionViolation, missing_freshness, freshness_from_future, stale_freshness, lineage_too_old,
  target_generation_mismatch, generation_mismatch, saturating_add, is_expired, same_node,
}

-- `Result<(), E>`.
pub data Check {ℓ} (E : Type ℓ) : Type ℓ where
  pass : Check E
  deny : E → Check E

unfoldable pub enforce_write_fence : ℕ → String → ℕ → LeaseRecord → Check WriteFenceViolation
unfolding is_expired
enforce_write_fence now_secs local_node_id local_generation lease =
    if is_expired lease now_secs
    then deny WriteFenceViolation.lease_expired
    else if not (same_node lease.holder_node_id local_node_id)
    then deny (WriteFenceViolation.not_lease_holder lease.holder_node_id)
    else if not (lease.generation == local_generation)
    then deny (generation_mismatch local_generation lease.generation)
    else pass

-- The checks of the freshness ledger.
unfoldable pub check_freshness :
    ℕ → PromotionRequest → PromotionConfig → Option FreshnessLedger → Check PromotionViolation
check_freshness now_secs request config none = deny missing_freshness
check_freshness now_secs request config (some freshness) =
    if ltb (saturating_add now_secs config.max_future_skew_secs) freshness.synced_at_secs
    then deny (freshness_from_future freshness.synced_at_secs now_secs config.max_future_skew_secs)
    else let age_secs : ℕ = now_secs - freshness.synced_at_secs in
      if ltb config.max_freshness_age_secs age_secs
      then deny (stale_freshness age_secs config.max_freshness_age_secs)
      else (if ltb freshness.source_generation request.min_source_generation
          then deny (lineage_too_old freshness.source_generation request.min_source_generation)
          else pass)

unfoldable pub validate_promotion :
    ℕ
    → LeaseRecord
    → PromotionRequest
    → Option FreshnessLedger
    → PromotionConfig
    → Check PromotionViolation
unfolding is_expired check_freshness
validate_promotion now_secs lease request freshness config =
    if is_expired lease now_secs
    then deny PromotionViolation.lease_expired
    else if not (same_node lease.holder_node_id request.candidate_node_id)
    then deny (PromotionViolation.not_lease_holder lease.holder_node_id)
    else if not (lease.generation == request.target_generation)
    then deny (target_generation_mismatch request.target_generation lease.generation)
    else check_freshness now_secs request config freshness
