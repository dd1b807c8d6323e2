-- ===== src/Main/Node/Agrees.antt =====
-- src/main.rs, the loop of `run_ha_mode`: the gateway and the readiness endpoint agree with the controller.
use Prim.Native.Char.{Char}
use rsqlite_rsync.Base.{
  ℕ, String, ◌≡◌, refl, sym, ap, ◌∙◌, subst, ◌↔◌, List, [], Option, none, some, Bool, true, false,
  arith,
}
use rsqlite_rsync.Ha.Lease.{
  PromotionConfig, LeaseRecord, NodeRole, writer, replica, HaAction, ensure_replica, enable_writer,
  disable_writer, record_promotion_denied, LeaseObservation,
}
use rsqlite_rsync.Ha.Runtime.{
  HaRuntime, HaSharedState, is_writer, observe_lease_change, reconcile_with_outcome, plan_actions,
}
use rsqlite_rsync.Ha.Runtime.Safety.{next, next_keeps, writer_holds}
use rsqlite_rsync.Ha.Runtime.Observation.{
  is_writer_iff, Describes, gone, first_seen, same, other_holder, same_term, new_term,
  observe-Describes,
}
use rsqlite_rsync.Ha.Controller.{
  Call, HaActionExecutor, HaController, execute_actions, execute_controller_plan, plan_tick,
  LeaseRead, failed, tick, tick_with_reader, report,
}
use rsqlite_rsync.Ha.Controller.Files.Shape.{
  PlanShape, is_replica, is_promoted, is_kept, is_demoted, shape_of,
}
use rsqlite_rsync.Main.Node.{
  lease_from_observation, Shared, as_replica, publish_lease, Node, tick_node,
}
use rsqlite_rsync.Main.Node.Announced.{Announced, exec, one_action-Announced, two_actions-Announced}

abbrev pub is_ready : NodeRole → Bool
is_ready writer = true
is_ready replica = false

-- What the gateway and the readiness endpoint see is the controller's state.
pub record InStep {F : Type 0} (r : HaRuntime) (x : Shared F) : Type 0 where
  pub same_node : x.ha_state.node_id ≡ r.node_id
  pub same_role : x.ha_state.role ≡ r.role
  pub readiness : x.readiness_state ≡ is_ready r.role
  pub same_generation : r.role ≡ writer → x.ha_state.generation ≡ r.local_generation

module _ {F E : Type 0} (inner : HaActionExecutor F E) (write : List Char → String → Call F E)
    (path : Option (List Char)) where
  as_replica-InStep :
      (r r' : HaRuntime) (x y : Shared F)
      → r'.node_id ≡ r.node_id
      → r'.role ≡ replica
      → InStep r x
      → Announced false (as_replica inner write path) x y
      → InStep r' y
  as_replica-InStep r r' x y n k i a = record {
    same_node = ap (λ (s : HaSharedState). s.node_id) a.0 ∙ i.same_node ∙ sym n;
    same_role = ap (λ (s : HaSharedState). s.role) a.0 ∙ sym k;
    readiness = a.1 ∙ sym (ap is_ready k);
    same_generation = λ w. cc (w, k);
  }

  pub PlanShape-InStep :
      (stop : Bool) (r r' : HaRuntime) (actions : List HaAction) (x : Shared F)
      → PlanShape r r' actions
      → r'.node_id ≡ r.node_id
      → InStep r x
      → (execute_actions (exec inner write path) stop actions x).1 ≡ []
      → InStep r' (execute_actions (exec inner write path) stop actions x).0
  PlanShape-InStep stop r r' _ x (is_replica none k) n i e =
      as_replica-InStep r r' x _ n k i
        (one_action-Announced inner write path stop ensure_replica x e)
  PlanShape-InStep stop r r' _ x (is_replica (some v) k) n i e =
      as_replica-InStep r r' x _ n k i
        (two_actions-Announced inner write path stop ensure_replica (record_promotion_denied v) x e)
  PlanShape-InStep stop r r' _ x (is_demoted reason k) n i e =
      as_replica-InStep r r' x _ n k i
        (two_actions-Announced inner write path stop (disable_writer reason) ensure_replica x e)
  PlanShape-InStep stop r r' _ x (is_promoted generation k g) n i e =
      let a = one_action-Announced inner write path stop (enable_writer generation) x e in
      record {
        same_node = ap (λ (s : HaSharedState). s.node_id) a.0 ∙ i.same_node ∙ sym n;
        same_role = ap (λ (s : HaSharedState). s.role) a.0 ∙ sym k;
        readiness = a.1 ∙ sym (ap is_ready k);
        same_generation = λ w. ap (λ (s : HaSharedState). s.generation) a.0 ∙ sym g;
      }
  PlanShape-InStep stop r r' _ x (is_kept was k g) n i e =
      let a = one_action-Announced inner write path stop HaAction.keep_writer x e in
      record {
        same_node = ap (λ (s : HaSharedState). s.node_id) a.0 ∙ i.same_node ∙ sym n;
        same_role = ap (λ (s : HaSharedState). s.role) a.0 ∙ sym k;
        readiness = a.1 ∙ sym (ap is_ready k);
        same_generation =
            λ w. ap (λ (s : HaSharedState). s.generation) a.0 ∙ i.same_generation was ∙ sym g;
      }

-- The lease of an observation is the current one.
Describes-lease :
    (p c : Option LeaseRecord) (o : LeaseObservation)
    → Describes p c o
    → lease_from_observation o ≡ c
unfolding lease_from_observation
Describes-lease p _ _ (gone q) = refl
Describes-lease _ _ _ (first_seen c) = refl
Describes-lease _ _ _ (same p c e) = refl
Describes-lease _ _ _ (other_holder p c h) = refl
Describes-lease _ _ _ (same_term p c h1 h2 h3) = refl
Describes-lease _ _ _ (new_term p c h1 h2) = refl

observed :
    (r : HaRuntime) (now : ℕ) (lease : Option LeaseRecord) (min_generation : ℕ)
    (config : PromotionConfig)
    → (reconcile_with_outcome r now lease min_generation config).1.lease_observation
      ≡ observe_lease_change r.lease lease
unfolding reconcile_with_outcome
observed r now none min_generation config = ground arith
observed r now (some lease) min_generation config = ground arith

-- The lease that a read gives: none when it fails.
abbrev pub lease_of : {L : Type 0} → LeaseRead L → Option LeaseRecord
lease_of (LeaseRead.read lease) = lease
lease_of (failed error) = none

abbrev pub holder_of : Option LeaseRecord → Option String
holder_of none = none
holder_of (some l) = some l.holder_node_id

pub published_lease :
    (service_name : List Char) (grpc_port : ℕ) (lease : Option LeaseRecord) (s : HaSharedState)
    → ((publish_lease service_name grpc_port lease s).lease_record ≡ lease)
      × ((publish_lease service_name grpc_port lease s).active_leader_id ≡ holder_of lease)
unfolding publish_lease
published_lease service_name grpc_port none s = (refl, refl)
published_lease service_name grpc_port (some l) s = (refl, refl)

published-InStep :
    {F : Type 0} (service_name : List Char) (grpc_port : ℕ) (lease : Option LeaseRecord)
    (r : HaRuntime) (x : Shared F)
    → InStep r x
    → InStep r (record x { ha_state = publish_lease service_name grpc_port lease x.ha_state })
unfolding publish_lease
published-InStep service_name grpc_port none r x i = record {
  same_node = i.same_node;
  same_role = i.same_role;
  readiness = i.readiness;
  same_generation = i.same_generation;
}
published-InStep service_name grpc_port (some l) r x i = record {
  same_node = i.same_node;
  same_role = i.same_role;
  readiness = i.readiness;
  same_generation = i.same_generation;
}

-- A node whose shared state is in step with its controller, and whose lease record is the lease seen.
abbrev pub Agrees : {F : Type 0} → ℕ → Option LeaseRecord → Node F → Type 0
Agrees now lease n =
    InStep n.controller.runtime n.shared
    × (n.shared.ha_state.lease_record ≡ lease)
    × (n.shared.ha_state.active_leader_id ≡ holder_of lease)
    × ((is_writer n.shared.ha_state now ≡ true) ↔ (n.controller.runtime.role ≡ writer))

writer-InStep :
    {F : Type 0} (r r' : HaRuntime) (now min_generation : ℕ) (config : PromotionConfig)
    (lease : Option LeaseRecord) (y : Shared F)
    → r' ≡ next r now lease min_generation config
    → InStep r' y
    → y.ha_state.lease_record ≡ lease
    → (is_writer y.ha_state now ≡ true) ↔ (r'.role ≡ writer)
writer-InStep r r' now min_generation config lease y e i k = (
  λ h. sym i.same_role ∙ ((is_writer_iff y.ha_state now).0 h).0,
  λ w.
      let (l, q, m) =
        writer_holds r now min_generation config lease
          (sym (ap (λ (z : HaRuntime). z.role) e) ∙ w) in
      (is_writer_iff y.ha_state now).1 (
        i.same_role ∙ w,
        (
          l,
          k ∙ q,
          record {
            in_time = m.in_time;
            holder =
                m.holder
                ∙ sym (next_keeps r now min_generation config lease).0
                ∙ sym (ap (λ (z : HaRuntime). z.node_id) e)
                ∙ sym i.same_node;
            current =
                m.current
                ∙ sym (ap (λ (z : HaRuntime). z.local_generation) e)
                ∙ sym (i.same_generation w);
          },
        ),
      ),
)

module _ {F E : Type 0} (inner : HaActionExecutor F E) (write : List Char → String → Call F E)
    (path : Option (List Char)) (service_name : List Char) (grpc_port : ℕ) (now : ℕ) where
  abbrev pub published_node : Option LeaseRecord → HaController → Shared F → Node F
  published_node seen c y = record {
    controller = c;
    shared = record y { ha_state = publish_lease service_name grpc_port seen y.ha_state };
    last_tick_secs = now;
  }

  published-Agrees :
      (lease : Option LeaseRecord) (r : HaRuntime) (min_generation : ℕ) (config : PromotionConfig)
      (c' : HaController) (y : Shared F)
      → c'.runtime ≡ next r now lease min_generation config
      → InStep c'.runtime y
      → Agrees now lease (published_node lease c' y)
  published-Agrees lease r min_generation config c' y e i =
      let p = published_lease service_name grpc_port lease y.ha_state in
      let j = published-InStep service_name grpc_port lease c'.runtime y i in
      (
        j,
        p.0,
        p.1,
        writer-InStep r c'.runtime now min_generation config lease
            (record y { ha_state = publish_lease service_name grpc_port lease y.ha_state }) e j p.0,
      )

  ticked-Agrees :
      (lease : Option LeaseRecord) (c : HaController) (x : Shared F)
      → InStep c.runtime x
      → (tick (exec inner write path) c now lease x).2.failures ≡ []
      → Agrees now lease (
          published_node lease
            (tick (exec inner write path) c now lease x).0
            (tick (exec inner write path) c now lease x).1)
  unfolding tick plan_tick execute_controller_plan plan_actions
  ticked-Agrees lease c x i e =
      let p = plan_actions c.runtime now lease c.min_source_generation c.promotion_config in
      published-Agrees lease c.runtime c.min_source_generation c.promotion_config
        (record c { runtime = p.0 })
        (execute_actions (exec inner write path) c.stop_on_error p.1.actions x).0 refl
        (PlanShape-InStep inner write path c.stop_on_error c.runtime p.0 p.1.actions x
          (shape_of c.runtime now lease c.min_source_generation c.promotion_config)
          (next_keeps c.runtime now c.min_source_generation c.promotion_config lease).0 i e)

  pub seen_lease :
      (lease : Option LeaseRecord) (c : HaController) (x : Shared F)
      → lease_from_observation
          (tick (exec inner write path) c now lease x).2.plan.outcome.lease_observation
        ≡ lease
  unfolding tick plan_tick execute_controller_plan plan_actions
  seen_lease lease c x =
      ap lease_from_observation
        (observed c.runtime now lease c.min_source_generation c.promotion_config)
      ∙ Describes-lease c.runtime.lease lease _ (observe-Describes c.runtime.lease lease)

  -- Where the shared state is in step with the controller before a pass of the loop of an HA node, and no action
  -- of the pass fails, it is in step after it, whatever the lease that is read or the failure to read one: the
  -- node's name, its role, the readiness and, for a writer, its generation are the controller's; the lease
  -- record is the lease that was read, none if the read failed, and the leader is its holder; and the gateway
  -- takes the node for the writer, at the time of the tick, exactly if the controller has made it the writer.
  pub tick_node-Agrees :
      {L : Type 0} (l : LeaseRead L) (c : HaController) (x : Shared F)
      → InStep c.runtime x
      → (report (tick_with_reader (exec inner write path) c now l x).2).failures ≡ []
      → Agrees now (lease_of l) (tick_node (exec inner write path) service_name grpc_port now l c x)
  unfolding tick_node tick_with_reader
  tick_node-Agrees (LeaseRead.read lease) c x i e =
      subst
        (λ (s : Option LeaseRecord). Agrees now lease (
          published_node s (tick (exec inner write path) c now lease x).0
            (tick (exec inner write path) c now lease x).1))
        (sym (seen_lease lease c x)) (ticked-Agrees lease c x i e)
  tick_node-Agrees (failed error) c x i e = ticked-Agrees none c x i e
