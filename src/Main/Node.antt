-- ===== src/Main/Node.antt =====
-- src/main.rs: `ReadinessAwareExecutor`, `lease_from_observation`, and of `run_ha_mode` the startup fence and the body of the loop: a
-- tick of the controller, and what the gateway and the readiness endpoint then see. The executor inside and
-- the file system are parameters.
pub mod Announced
pub mod Agrees
pub mod Stuck
pub mod Startup
use Prim.Native.Char.{Char}
use rsqlite_rsync.Base.{
  ℕ, String, List, [], ◌∷◌, ◌++◌, Option, none, some, Bool, true, false, if◌then◌else◌, not, length,
}
use rsqlite_rsync.Protocol.Messages.{plain, format}
use rsqlite_rsync.Error.{SyncError, protocol, Result, ok, err, panic, and_then}
use rsqlite_rsync.KvText.Chars.{chars, text, display}
use rsqlite_rsync.Ha.Lease.{
  LeaseRecord, FreshnessLedger, NodeRole, writer, replica, DemotionReason, PromotionViolation,
  LeaseObservation, ReconcileDecision, keep_replica, promote_to_writer, demote_to_replica, missing,
  acquired, renewed, transferred, replaced, unchanged,
}
use rsqlite_rsync.Ha.Runtime
use rsqlite_rsync.Ha.Runtime.{HaRuntime, HaSharedState}
use rsqlite_rsync.Ha.Controller.{
  Call, HaActionExecutor, HaController, update_freshness, LeaseRead, ControllerTickOutcome,
  is_success, executed, lease_read_failed, tick_with_reader,
}

unfoldable pub lease_from_observation : LeaseObservation → Option LeaseRecord
lease_from_observation missing = none
lease_from_observation (acquired lease) = some lease
lease_from_observation (renewed lease) = some lease
lease_from_observation (replaced lease) = some lease
lease_from_observation (unchanged lease) = some lease
lease_from_observation (transferred previous current) = some current

-- The state that the executor shares with the gateway and the readiness endpoint; `inner` is that of the
-- executor inside.
pub record Shared (F : Type 0) : Type 0 where
  pub inner : F
  pub readiness_state : Bool
  pub ha_state : HaSharedState

module _ {F E : Type 0} (inner : HaActionExecutor F E) (write : List Char → String → Call F E)
    (readiness_path : Option (List Char)) where
  abbrev readiness_text : Bool → String
  readiness_text ready = if ready then "ready\n" else "not-ready\n"

  abbrev write_file : Option (List Char) → Bool → Call F E
  write_file none ready f = (f, none)
  write_file (some path) ready f = write path (readiness_text ready) f

  abbrev with_inner : Shared F → F × Option E → Shared F × Option E
  with_inner x (f, error) = (record x { inner = f }, error)

  unfoldable pub write_readiness : Bool → Call (Shared F) E
  write_readiness ready x =
      with_inner (record x { readiness_state = ready }) (write_file readiness_path ready x.inner)

  -- `inner(..)?; write_readiness(..)?`, and then the change of the shared state.
  abbrev pub publish : (HaSharedState → HaSharedState) → Shared F × Option E → Shared F × Option E
  publish change (x, some e) = (x, some e)
  publish change (x, none) = (record x { ha_state = change x.ha_state }, none)

  abbrev pub ready_after :
      Bool → (HaSharedState → HaSharedState) → Shared F × Option E → Shared F × Option E
  ready_after ready change (x, some e) = (x, some e)
  ready_after ready change (x, none) = publish change (write_readiness ready x)

  abbrev pub announced : Bool → (HaSharedState → HaSharedState) → Call F E → Call (Shared F) E
  announced ready change call x = ready_after ready change (with_inner x (call x.inner))

  abbrev pub as_replica : HaSharedState → HaSharedState
  as_replica s = record s { role = replica }

  abbrev pub as_writer : HaSharedState → HaSharedState
  as_writer s = record s { role = writer }

  abbrev pub as_writer_of : ℕ → HaSharedState → HaSharedState
  as_writer_of generation s = record s { role = writer; generation = generation }

  unfoldable pub readiness_aware_executor : HaActionExecutor (Shared F) E
  unfolding write_readiness
  readiness_aware_executor = record {
    ensure_replica = announced false as_replica inner.ensure_replica;
    enable_writer =
        λ generation. announced true (as_writer_of generation) (inner.enable_writer generation);
    disable_writer = λ reason. announced false as_replica (inner.disable_writer reason);
    keep_writer = announced true as_writer inner.keep_writer;
    record_promotion_denied =
        λ violation. announced false as_replica (inner.record_promotion_denied violation);
  }

-- What is read of the freshness file, when one is configured.
pub data FreshnessRead : Type 0 where
  not_configured : FreshnessRead
  ledger : Option FreshnessLedger → FreshnessRead
  unreadable : SyncError → FreshnessRead

abbrev pub refreshed : FreshnessRead → HaController → Result HaController
refreshed not_configured c = ok c
refreshed (ledger (some freshness)) c = ok (update_freshness c freshness)
refreshed (ledger none) c = ok (record c { runtime = Runtime.clear_freshness c.runtime })
refreshed (unreadable error) c = err error

-- The lease that a tick has seen.
abbrev pub current_lease : {L E : Type 0} → ControllerTickOutcome L E → Option LeaseRecord
current_lease (executed report) = lease_from_observation report.plan.outcome.lease_observation
current_lease (lease_read_failed error report) = none

abbrev is_empty_name : List Char → Bool
is_empty_name [] = true
is_empty_name (c ∷ s) = false

module _ (service_name : List Char) (grpc_port : ℕ) where
  unfoldable pub leader_endpoint : String → String
  unfolding text chars display
  leader_endpoint holder =
      if is_empty_name service_name
      then text (chars "http://" ++ (chars holder ++ (chars ":" ++ display grpc_port)))
      else text (
          chars "http://"
          ++ (chars holder ++ (chars "." ++ (service_name ++ (chars ":" ++ display grpc_port)))))

  -- The lease and the leader in the shared state.
  unfoldable pub publish_lease : Option LeaseRecord → HaSharedState → HaSharedState
  unfolding leader_endpoint
  publish_lease none s = record s {
    lease_record = none;
    active_leader_id = none;
    active_leader_endpoint = none;
  }
  publish_lease (some l) s = record s {
    lease_record = some l;
    active_leader_id = some l.holder_node_id;
    active_leader_endpoint = some (leader_endpoint l.holder_node_id);
  }

-- A node between two ticks.
pub record Node (F : Type 0) : Type 0 where
  pub controller : HaController
  pub shared : Shared F
  pub last_tick_secs : ℕ

module _ {F E : Type 0} (executor : HaActionExecutor (Shared F) E) (service_name : List Char)
    (grpc_port : ℕ) where
  -- The rest of the body, once the freshness and the clock are read.
  abbrev pub after_tick :
      {L : Type 0} → ℕ → HaController × Shared F × ControllerTickOutcome L E → Node F
  after_tick now_secs (controller, shared, outcome) = record {
    controller = controller;
    shared = record shared {
      ha_state = publish_lease service_name grpc_port (current_lease outcome) shared.ha_state;
    };
    last_tick_secs = now_secs;
  }

  unfoldable pub tick_node : {L : Type 0} → ℕ → LeaseRead L → HaController → Shared F → Node F
  unfolding tick_with_reader publish_lease lease_from_observation
  tick_node now_secs lease_read controller shared =
      after_tick now_secs (tick_with_reader executor controller now_secs lease_read shared)

  -- One pass of the loop; an error ends it.
  unfoldable pub loop_body :
      {L : Type 0} → FreshnessRead → Result ℕ → LeaseRead L → Node F → Result (Node F)
  unfolding tick_node update_freshness Runtime.clear_freshness
  loop_body freshness clock lease_read node =
      and_then (refreshed freshness node.controller) (λ controller.
        and_then clock (λ now_secs. ok (tick_node now_secs lease_read controller node.shared)))

-- `HaStartupFenceMode`.
pub data HaStartupFenceMode : Type 0 where
  permissive require_writer : HaStartupFenceMode

abbrev pub is_writer_decision : ReconcileDecision → Bool
is_writer_decision (promote_to_writer generation) = true
is_writer_decision ReconcileDecision.keep_writer = true
is_writer_decision keep_replica = false
is_writer_decision (demote_to_replica reason) = false

module _ {F E L : Type 0} (executor : HaActionExecutor (Shared F) E) where
  -- What the startup fence makes of its tick.
  abbrev pub fenced :
      HaController → Shared F → ControllerTickOutcome L E → Result (HaController × Shared F)
  fenced c x (executed report) =
      if not (is_writer_decision report.plan.outcome.decision)
      then err (protocol (plain "startup fence blocked writer startup: decision={:?}"))
      else if not (is_success report)
      then err (
          protocol (
            format "startup fence writer actions failed: {} failures"
              (length report.failures ∷ [])))
      else ok (c, x)
  fenced c x (lease_read_failed error report) =
      err (protocol (plain "startup fence lease read failed: {error}"))

  abbrev pub fenced_tick :
      HaController × Shared F × ControllerTickOutcome L E → Result (HaController × Shared F)
  fenced_tick (c, x, outcome) = fenced c x outcome

  -- Before the loop.
  unfoldable pub startup_fence :
      HaStartupFenceMode
      → FreshnessRead
      → Result ℕ
      → LeaseRead L
      → HaController
      → Shared F
      → Result (HaController × Shared F)
  unfolding tick_with_reader update_freshness Runtime.clear_freshness
  startup_fence permissive freshness clock lease_read c x = ok (c, x)
  startup_fence require_writer freshness clock lease_read c x =
      and_then (refreshed freshness c) (λ c'.
        and_then clock
          (λ now_secs. fenced_tick (tick_with_reader executor c' now_secs lease_read x)))
