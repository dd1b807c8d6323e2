-- ===== src/Ha/Controller.antt =====
-- src/ha.rs: `execute_controller_plan`, `HaController` and its ticks. The executor and the lease
-- reader are traits: parameters of the tick, with a state of their own.
pub mod Execution
pub mod Files
use rsqlite_rsync.Base.{
  ℕ, String, Option, none, some, List, [], ◌∷◌, Bool, true, false, if◌then◌else◌,
}
use rsqlite_rsync.Ha.Lease.{
  LeaseRecord, FreshnessLedger, PromotionConfig, PromotionViolation, DemotionReason, HaAction,
  ControllerPlan, disable_writer, record_promotion_denied,
}
use rsqlite_rsync.Ha.Runtime
use rsqlite_rsync.Ha.Runtime.{HaRuntime, plan_actions, new}

-- A call of the executor: its state after the call, and the error if it failed.
abbrev pub Call : Type 0 → Type 0 → Type 0
Call X E = X → X × Option E

pub record HaActionExecutor (X : Type 0) (E : Type 0) : Type 0 where
  pub ensure_replica : Call X E
  pub enable_writer : ℕ → Call X E
  pub disable_writer : DemotionReason → Call X E
  pub keep_writer : Call X E
  pub record_promotion_denied : PromotionViolation → Call X E

pub record ActionExecutionFailure (E : Type 0) : Type 0 where
  pub action : HaAction
  pub error : E

abbrev is_empty {ℓ} : {A : Type ℓ} → List A → Bool
is_empty [] = true
is_empty (x ∷ xs) = false

pub record ActionExecutionReport (E : Type 0) : Type 0 where
  pub plan : ControllerPlan
  pub failures : List (ActionExecutionFailure E)

module _ {X E : Type 0} (executor : HaActionExecutor X E) where
  unfoldable pub perform : HaAction → Call X E
  perform HaAction.ensure_replica = executor.ensure_replica
  perform (HaAction.enable_writer generation) = executor.enable_writer generation
  perform (HaAction.disable_writer reason) = executor.disable_writer reason
  perform HaAction.keep_writer = executor.keep_writer
  perform (HaAction.record_promotion_denied violation) = executor.record_promotion_denied violation

  -- One failure is recorded; the loop goes on unless `stop_on_error`.
  abbrev pub record_failure :
      Bool
      → HaAction
      → Option E
      → X
      → (X → X × List (ActionExecutionFailure E))
      → X × List (ActionExecutionFailure E)
  record_failure stop action none x rest = rest x
  record_failure true action (some e) x rest = (x, record { action = action; error = e } ∷ [])
  record_failure false action (some e) x rest =
      let (x', failures) = rest x in (x', record { action = action; error = e } ∷ failures)

  unfoldable pub execute_actions : Bool → List HaAction → X → X × List (ActionExecutionFailure E)
  unfolding perform
  execute_actions stop [] x = (x, [])
  execute_actions stop (action ∷ rest) x =
      let (x', result) = perform action x in
      record_failure stop action result x' (execute_actions stop rest)

  unfoldable pub execute_controller_plan : ControllerPlan → Bool → X → X × ActionExecutionReport E
  unfolding execute_actions
  execute_controller_plan plan stop x =
      let (x', failures) = execute_actions stop plan.actions x in
      (x', record { plan = plan; failures = failures })

pub record HaController : Type 0 where
  pub runtime : HaRuntime
  pub promotion_config : PromotionConfig
  pub min_source_generation : ℕ
  pub stop_on_error : Bool

unfoldable pub default_promotion_config : PromotionConfig
default_promotion_config = record { max_freshness_age_secs = 10; max_future_skew_secs = 2 }

unfoldable pub new_controller : String → HaController
unfolding new default_promotion_config
new_controller node_id = record {
  runtime = new node_id;
  promotion_config = default_promotion_config;
  min_source_generation = 0;
  stop_on_error = true;
}

unfoldable pub update_freshness : HaController → FreshnessLedger → HaController
unfolding Runtime.update_freshness
update_freshness c ledger = record c { runtime = Runtime.update_freshness c.runtime ledger }

unfoldable pub set_min_source_generation : HaController → ℕ → HaController
set_min_source_generation c generation = record c { min_source_generation = generation }

unfoldable pub set_promotion_config : HaController → PromotionConfig → HaController
set_promotion_config c config = record c { promotion_config = config }

unfoldable pub set_stop_on_error : HaController → Bool → HaController
set_stop_on_error c stop = record c { stop_on_error = stop }

unfoldable pub plan_tick : HaController → ℕ → Option LeaseRecord → HaController × ControllerPlan
unfolding plan_actions
plan_tick c now_secs lease =
    let (r, plan) =
      plan_actions c.runtime now_secs lease c.min_source_generation c.promotion_config in
    (record c { runtime = r }, plan)

-- The result of reading the lease.
pub data LeaseRead (L : Type 0) : Type 0 where
  read : Option LeaseRecord → LeaseRead L
  failed : L → LeaseRead L

pub data ControllerTickOutcome (L : Type 0) (E : Type 0) : Type 0 where
  executed : ActionExecutionReport E → ControllerTickOutcome L E
  lease_read_failed : L → ActionExecutionReport E → ControllerTickOutcome L E

abbrev pub is_success : {E : Type 0} → ActionExecutionReport E → Bool
is_success report = is_empty report.failures

abbrev pub report : {L E : Type 0} → ControllerTickOutcome L E → ActionExecutionReport E
report (executed r) = r
report (lease_read_failed error r) = r

module _ {X E : Type 0} (executor : HaActionExecutor X E) where
  unfoldable pub plan_and_execute :
      HaRuntime
      → ℕ
      → Option LeaseRecord
      → ℕ
      → PromotionConfig
      → Bool
      → X
      → HaRuntime × X × ActionExecutionReport E
  unfolding plan_actions execute_controller_plan
  plan_and_execute r now_secs lease min_source_generation config stop x =
      let (r', plan) = plan_actions r now_secs lease min_source_generation config in
      let (x', done) = execute_controller_plan executor plan stop x in (r', x', done)

  unfoldable pub tick :
      HaController → ℕ → Option LeaseRecord → X → HaController × X × ActionExecutionReport E
  unfolding plan_tick execute_controller_plan
  tick c now_secs lease x =
      let (c', plan) = plan_tick c now_secs lease in
      let (x', report) = execute_controller_plan executor plan c.stop_on_error x in (c', x', report)

  -- A failed read is a tick with no lease.
  unfoldable pub tick_with_reader :
      {L : Type 0}
      → HaController
      → ℕ
      → LeaseRead L
      → X
      → HaController × X × ControllerTickOutcome L E
  unfolding tick
  tick_with_reader c now_secs (read lease) x =
      let (c', x', report) = tick c now_secs lease x in (c', x', executed report)
  tick_with_reader c now_secs (failed error) x =
      let (c', x', report) = tick c now_secs none x in (c', x', lease_read_failed error report)
