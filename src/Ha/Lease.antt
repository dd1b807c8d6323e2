-- ===== src/Ha/Lease.antt =====
-- src/ha.rs: the records and outcomes of the policy. Node names are texts; times and generations are
-- `u64`, and the two additions saturate.
use text.Mathlib.Text.{◌==◌ as str_eq}
use rsqlite_rsync.Base.{ℕ, String, Option, List, Bool, ◌+◌, min, ltb}

pub record LeaseRecord : Type 0 where
  pub holder_node_id : String
  pub generation : ℕ
  pub renewed_at_secs : ℕ
  pub ttl_secs : ℕ

pub record FreshnessLedger : Type 0 where
  pub source_node_id : String
  pub source_generation : ℕ
  pub synced_at_secs : ℕ

pub record PromotionConfig : Type 0 where
  pub max_freshness_age_secs : ℕ
  pub max_future_skew_secs : ℕ

pub record PromotionRequest : Type 0 where
  pub candidate_node_id : String
  pub target_generation : ℕ
  pub min_source_generation : ℕ

pub data WriteFenceViolation : Type 0 where
  lease_expired : WriteFenceViolation
  not_lease_holder : String → WriteFenceViolation
  generation_mismatch : ℕ → ℕ → WriteFenceViolation

pub data PromotionViolation : Type 0 where
  lease_expired : PromotionViolation
  not_lease_holder : String → PromotionViolation
  target_generation_mismatch : ℕ → ℕ → PromotionViolation
  missing_freshness : PromotionViolation
  freshness_from_future : ℕ → ℕ → ℕ → PromotionViolation
  stale_freshness : ℕ → ℕ → PromotionViolation
  lineage_too_old : ℕ → ℕ → PromotionViolation

pub data NodeRole : Type 0 where
  writer replica : NodeRole

pub data DemotionReason : Type 0 where
  lease_missing : DemotionReason
  fence_violation : WriteFenceViolation → DemotionReason

pub data ReconcileDecision : Type 0 where
  keep_replica : ReconcileDecision
  promote_to_writer : ℕ → ReconcileDecision
  keep_writer : ReconcileDecision
  demote_to_replica : DemotionReason → ReconcileDecision

pub data LeaseObservation : Type 0 where
  missing : LeaseObservation
  acquired : LeaseRecord → LeaseObservation
  renewed : LeaseRecord → LeaseObservation
  transferred : LeaseRecord → LeaseRecord → LeaseObservation
  replaced : LeaseRecord → LeaseObservation
  unchanged : LeaseRecord → LeaseObservation

pub record ReconcileOutcome : Type 0 where
  pub decision : ReconcileDecision
  pub lease_observation : LeaseObservation
  pub promotion_violation : Option PromotionViolation

pub data HaAction : Type 0 where
  ensure_replica : HaAction
  enable_writer : ℕ → HaAction
  disable_writer : DemotionReason → HaAction
  keep_writer : HaAction
  record_promotion_denied : PromotionViolation → HaAction

pub record ControllerPlan : Type 0 where
  pub outcome : ReconcileOutcome
  pub actions : List HaAction

-- `u64::saturating_add`.
abbrev pub saturating_add : ℕ → ℕ → ℕ
saturating_add a b = min (a + b) 18446744073709551615

unfoldable pub is_expired : LeaseRecord → ℕ → Bool
is_expired lease now_secs = ltb (saturating_add lease.renewed_at_secs lease.ttl_secs) now_secs

-- Equality of node names.
abbrev pub same_node : String → String → Bool
same_node a b = str_eq a b
