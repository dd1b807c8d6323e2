-- ===== src/Ha/Runtime.antt =====
-- src/ha.rs: `HaRuntime`, the role of a node, and `HaSharedState`, what the gateway sees of it.
pub mod Safety
pub mod Observation
use rsqlite_rsync.Base.{
  ℕ, String, Option, none, some, List, [], ◌∷◌, Bool, true, false, not, ◌&&◌, ◌==◌, if◌then◌else◌,
}
use rsqlite_rsync.Ha.Lease.{
  LeaseRecord, FreshnessLedger, PromotionConfig, PromotionRequest, WriteFenceViolation,
  PromotionViolation, NodeRole, writer, replica, DemotionReason, lease_missing, fence_violation,
  ReconcileDecision, keep_replica, promote_to_writer, demote_to_replica, LeaseObservation, missing,
  acquired, renewed, transferred, replaced, unchanged, ReconcileOutcome, HaAction, ensure_replica,
  enable_writer, disable_writer, record_promotion_denied, ControllerPlan, same_node,
}
use rsqlite_rsync.Ha.Fence.{Check, pass, deny, enforce_write_fence, validate_promotion}

pub record HaRuntime : Type 0 where
  pub node_id : String
  pub role : NodeRole
  pub local_generation : ℕ
  pub lease : Option LeaseRecord
  pub freshness : Option FreshnessLedger

unfoldable pub new : String → HaRuntime
new node_id = record {
  node_id = node_id;
  role = replica;
  local_generation = 0;
  lease = none;
  freshness = none;
}

unfoldable pub update_freshness : HaRuntime → FreshnessLedger → HaRuntime
update_freshness r ledger = record r { freshness = some ledger }

unfoldable pub clear_freshness : HaRuntime → HaRuntime
clear_freshness r = record r { freshness = none }

-- The derived equality of lease records.
abbrev pub lease_eq : LeaseRecord → LeaseRecord → Bool
lease_eq a b =
    same_node a.holder_node_id b.holder_node_id
    && (a.generation == b.generation
        && (a.renewed_at_secs == b.renewed_at_secs && a.ttl_secs == b.ttl_secs))

unfoldable pub observe_lease_change : Option LeaseRecord → Option LeaseRecord → LeaseObservation
observe_lease_change none none = missing
observe_lease_change none (some current) = acquired current
observe_lease_change (some previous) none = missing
observe_lease_change (some previous) (some current) =
    if lease_eq previous current
    then unchanged current
    else if not (same_node previous.holder_node_id current.holder_node_id)
    then transferred previous current
    else (if previous.generation == current.generation then renewed current else replaced current)

-- The outcome of a tick of a writer, and of a replica; each with the state after it.
abbrev pub after_fence :
    HaRuntime → LeaseObservation → Check WriteFenceViolation → HaRuntime × ReconcileOutcome
after_fence r seen pass = (
  r,
  record {
    decision = ReconcileDecision.keep_writer;
    lease_observation = seen;
    promotion_violation = none;
  },
)
after_fence r seen (deny violation) = (
  record r { role = replica },
  record {
    decision = demote_to_replica (fence_violation violation);
    lease_observation = seen;
    promotion_violation = none;
  },
)

unfoldable pub reconcile_writer :
    ℕ → HaRuntime → LeaseObservation → Option LeaseRecord → HaRuntime × ReconcileOutcome
unfolding enforce_write_fence
reconcile_writer now_secs r seen none = (
  record r { role = replica },
  record {
    decision = demote_to_replica lease_missing;
    lease_observation = seen;
    promotion_violation = none;
  },
)
reconcile_writer now_secs r seen (some current) =
    after_fence r seen (enforce_write_fence now_secs r.node_id r.local_generation current)

abbrev pub after_promotion :
    HaRuntime → LeaseObservation → ℕ → Check PromotionViolation → HaRuntime × ReconcileOutcome
after_promotion r seen generation pass = (
  record r { role = writer; local_generation = generation },
  record {
    decision = promote_to_writer generation;
    lease_observation = seen;
    promotion_violation = none;
  },
)
after_promotion r seen generation (deny violation) = (
  r,
  record {
    decision = keep_replica;
    lease_observation = seen;
    promotion_violation = some violation;
  },
)

unfoldable pub reconcile_replica :
    ℕ
    → HaRuntime
    → LeaseObservation
    → ℕ
    → PromotionConfig
    → Option LeaseRecord
    → HaRuntime × ReconcileOutcome
unfolding validate_promotion
reconcile_replica now_secs r seen min_source_generation config none =
    (r, record { decision = keep_replica; lease_observation = seen; promotion_violation = none })
reconcile_replica now_secs r seen min_source_generation config (some current) =
    let request : PromotionRequest = record {
      candidate_node_id = r.node_id;
      target_generation = current.generation;
      min_source_generation = min_source_generation;
    } in
    after_promotion r seen current.generation
      (validate_promotion now_secs current request r.freshness config)

abbrev pub by_role {ℓ} : {A : Type ℓ} → NodeRole → A → A → A
by_role writer a b = a
by_role replica a b = b

unfoldable pub reconcile_with_outcome :
    HaRuntime → ℕ → Option LeaseRecord → ℕ → PromotionConfig → HaRuntime × ReconcileOutcome
unfolding observe_lease_change reconcile_writer reconcile_replica
reconcile_with_outcome r now_secs lease min_source_generation config =
    let seen : LeaseObservation = observe_lease_change r.lease lease in
    let r' : HaRuntime = record r { lease = lease } in
    by_role r.role (reconcile_writer now_secs r' seen lease)
      (reconcile_replica now_secs r' seen min_source_generation config lease)

unfoldable pub reconcile :
    HaRuntime → ℕ → Option LeaseRecord → ℕ → PromotionConfig → HaRuntime × ReconcileDecision
unfolding reconcile_with_outcome
reconcile r now_secs lease min_source_generation config =
    let (r', outcome) = reconcile_with_outcome r now_secs lease min_source_generation config in
    (r', outcome.decision)

-- The actions of a plan follow from its outcome.
abbrev pub denied : Option PromotionViolation → List HaAction
denied none = []
denied (some violation) = record_promotion_denied violation ∷ []

unfoldable pub actions_of : ReconcileOutcome → ReconcileDecision → List HaAction
actions_of outcome keep_replica = ensure_replica ∷ denied outcome.promotion_violation
actions_of outcome (promote_to_writer generation) = enable_writer generation ∷ []
actions_of outcome ReconcileDecision.keep_writer = HaAction.keep_writer ∷ []
actions_of outcome (demote_to_replica reason) = disable_writer reason ∷ ensure_replica ∷ []

unfoldable pub plan_actions :
    HaRuntime → ℕ → Option LeaseRecord → ℕ → PromotionConfig → HaRuntime × ControllerPlan
unfolding reconcile_with_outcome actions_of
plan_actions r now_secs lease min_source_generation config =
    let (r', outcome) = reconcile_with_outcome r now_secs lease min_source_generation config in
    (r', record { outcome = outcome; actions = actions_of outcome outcome.decision })

pub record HaSharedState : Type 0 where
  pub node_id : String
  pub role : NodeRole
  pub generation : ℕ
  pub active_leader_id : Option String
  pub active_leader_endpoint : Option String
  pub lease_record : Option LeaseRecord
  pub allow_replica_reads : Bool

unfoldable pub new_shared : String → Bool → HaSharedState
new_shared node_id allow_replica_reads = record {
  node_id = node_id;
  role = replica;
  generation = 0;
  active_leader_id = none;
  active_leader_endpoint = none;
  lease_record = none;
  allow_replica_reads = allow_replica_reads;
}

abbrev is_pass {ℓ} : {E : Type ℓ} → Check E → Bool
is_pass pass = true
is_pass (deny e) = false

abbrev fence_ok : ℕ → String → ℕ → Option LeaseRecord → Bool
fence_ok now_secs node_id generation none = false
fence_ok now_secs node_id generation (some lease) =
    is_pass (enforce_write_fence now_secs node_id generation lease)

unfoldable pub is_writer : HaSharedState → ℕ → Bool
is_writer s now_secs =
    by_role s.role (fence_ok now_secs s.node_id s.generation s.lease_record) false
