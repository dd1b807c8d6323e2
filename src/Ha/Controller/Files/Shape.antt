-- ===== src/Ha/Controller/Files/Shape.antt =====
-- src/ha.rs: the actions of a plan by the outcome of its tick.
use rsqlite_rsync.Base.{ℕ, ◌≡◌, refl, inl, inr, Option, none, some, List, [], ◌∷◌}
use rsqlite_rsync.Ha.Lease.{
  LeaseRecord, writer, replica, HaAction, ensure_replica, enable_writer, disable_writer,
  PromotionViolation, DemotionReason, lease_missing, fence_violation, LeaseObservation,
  ReconcileOutcome, WriteFenceViolation, PromotionConfig,
}
use rsqlite_rsync.Ha.Fence.{Check, pass, deny, enforce_write_fence, validate_promotion}
use rsqlite_rsync.Ha.Runtime.{
  HaRuntime, plan_actions, actions_of, denied, after_fence, after_promotion, observe_lease_change,
}
use rsqlite_rsync.Ha.Runtime.Safety.{role_cases, request_for}

-- The actions of a plan, by what the tick made of the role.
pub data PlanShape (r r' : HaRuntime) : List HaAction → Type 0 where
  is_replica :
      (violation : Option PromotionViolation)
      → r'.role ≡ replica
      → PlanShape r r' (ensure_replica ∷ denied violation)
  is_promoted :
      (generation : ℕ)
      → r'.role ≡ writer
      → r'.local_generation ≡ generation
      → PlanShape r r' (enable_writer generation ∷ [])
  is_kept :
      r.role ≡ writer
      → r'.role ≡ writer
      → r'.local_generation ≡ r.local_generation
      → PlanShape r r' (HaAction.keep_writer ∷ [])
  is_demoted :
      (reason : DemotionReason)
      → r'.role ≡ replica
      → PlanShape r r' (disable_writer reason ∷ ensure_replica ∷ [])

-- The shape of a runtime and its outcome.
abbrev Shaped : HaRuntime → HaRuntime × ReconcileOutcome → Type 0
Shaped r p = PlanShape r p.0 (actions_of p.1 p.1.decision)

fence_shape :
    (r r' : HaRuntime) (seen : LeaseObservation) (c : Check WriteFenceViolation)
    → r.role ≡ writer
    → r'.role ≡ writer
    → r'.local_generation ≡ r.local_generation
    → Shaped r (after_fence r' seen c)
unfolding actions_of
fence_shape r r' seen pass was same_role same = is_kept was same_role same
fence_shape r r' seen (deny violation) was same_role same =
    is_demoted (fence_violation violation) refl

promotion_shape :
    (r r' : HaRuntime) (seen : LeaseObservation) (generation : ℕ) (c : Check PromotionViolation)
    → r'.role ≡ replica
    → Shaped r (after_promotion r' seen generation c)
unfolding actions_of
promotion_shape r r' seen generation pass was = is_promoted generation refl refl
promotion_shape r r' seen generation (deny violation) was = is_replica (some violation) was

shape_of_writer :
    (r : HaRuntime) (now : ℕ) (lease : Option LeaseRecord) (min_generation : ℕ)
    (config : PromotionConfig)
    → r.role ≡ writer
    → PlanShape r
        (plan_actions r now lease min_generation config).0
        (plan_actions r now lease min_generation config).1.actions
unfolding plan_actions
shape_of_writer r now none min_generation config was = rw was (is_demoted lease_missing refl)
shape_of_writer r now (some lease) min_generation config was = rw was (
    fence_shape (record r { role = writer }) (record r { role = writer; lease = some lease })
      (observe_lease_change r.lease (some lease))
      (enforce_write_fence now r.node_id r.local_generation lease) refl refl refl)

shape_of_replica :
    (r : HaRuntime) (now : ℕ) (lease : Option LeaseRecord) (min_generation : ℕ)
    (config : PromotionConfig)
    → r.role ≡ replica
    → PlanShape r
        (plan_actions r now lease min_generation config).0
        (plan_actions r now lease min_generation config).1.actions
unfolding plan_actions
shape_of_replica r now none min_generation config was = rw was (is_replica none refl)
shape_of_replica r now (some lease) min_generation config was = rw was (
    promotion_shape (record r { role = replica }) (record r { role = replica; lease = some lease })
      (observe_lease_change r.lease (some lease)) lease.generation
      (validate_promotion now lease (request_for r min_generation lease) r.freshness config) refl)

pub shape_of :
    (r : HaRuntime) (now : ℕ) (lease : Option LeaseRecord) (min_generation : ℕ)
    (config : PromotionConfig)
    → PlanShape r
        (plan_actions r now lease min_generation config).0
        (plan_actions r now lease min_generation config).1.actions
shape_of r now lease min_generation config = elim (role_cases r.role) [
  | inl was ↦ shape_of_writer r now lease min_generation config was
  | inr was ↦ shape_of_replica r now lease min_generation config was
]
