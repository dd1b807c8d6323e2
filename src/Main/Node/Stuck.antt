-- ===== src/Main/Node/Stuck.antt =====
-- src/main.rs, the loop of `run_ha_mode`: a writer whose generation the gateway does not know.
use Prim.Native.Char.{Char}
use rsqlite_rsync.Base.{
  ℕ, String, ◌≡◌, ◌≢◌, refl, sym, ap, ◌∙◌, List, [], ◌∷◌, Option, none, some, Bool, true, false,
  Bool-cases, inl, inr,
}
use mathlib.Core.Option.{some-injective}
use rsqlite_rsync.Ha.Lease.{LeaseRecord, writer, HaAction, PromotionConfig}
use rsqlite_rsync.Ha.Fence.{pass, enforce_write_fence}
use rsqlite_rsync.Ha.Fence.Rules.{MayWrite, enforce_write_fence_iff}
use rsqlite_rsync.Ha.Runtime.{HaRuntime, HaSharedState, is_writer, plan_actions}
use rsqlite_rsync.Ha.Runtime.Observation.{is_writer_iff}
use rsqlite_rsync.Ha.Controller.{
  Call, HaActionExecutor, HaController, perform, execute_actions, record_failure, LeaseRead, tick,
  tick_with_reader, plan_tick, execute_controller_plan,
}
use rsqlite_rsync.Main.Node.{
  Shared, with_inner, write_readiness, write_file, publish, ready_after, readiness_aware_executor,
  as_writer, publish_lease, Node, tick_node,
}
use rsqlite_rsync.Main.Node.Announced.{exec}
use rsqlite_rsync.Main.Node.Agrees.{published_lease, seen_lease}

module _ {F E : Type 0} (inner : HaActionExecutor F E) (write : List Char → String → Call F E)
    (path : Option (List Char)) where
  -- What the shared state says of the generation, if the change leaves it alone.
  published_generation :
      (change : HaSharedState → HaSharedState) (x : Shared F) (p : F × Option E)
      → ((s : HaSharedState) → (change s).generation ≡ s.generation)
      → (publish inner write path change (with_inner inner write path x p)).0.ha_state.generation
        ≡ x.ha_state.generation
  published_generation change x (f, none) h = h x.ha_state
  published_generation change x (f, some e) h = refl

  ready_generation :
      (ready : Bool) (change : HaSharedState → HaSharedState) (x : Shared F) (p : F × Option E)
      → ((s : HaSharedState) → (change s).generation ≡ s.generation)
      → (ready_after inner write path ready change
          (with_inner inner write path x p)).0.ha_state.generation
        ≡ x.ha_state.generation
  unfolding write_readiness
  ready_generation ready change x (f, some e) h = refl
  ready_generation ready change x (f, none) h =
      published_generation change (record x { inner = f; readiness_state = ready })
        (write_file inner write path path ready f) h

  last_of :
      (stop : Bool) (a : HaAction) (result : Option E) (x : Shared F)
      → (record_failure (exec inner write path) stop a result x (λ y. (y, []))).0 ≡ x
  last_of stop a none x = refl
  last_of true a (some e) x = refl
  last_of false a (some e) x = refl

  keep_writer_generation :
      (stop : Bool) (x : Shared F)
      → (execute_actions
          (exec inner write path)
          stop
          (HaAction.keep_writer ∷ [])
          x).0.ha_state.generation
        ≡ x.ha_state.generation
  unfolding execute_actions perform readiness_aware_executor
  keep_writer_generation stop x =
      let y = perform (exec inner write path) HaAction.keep_writer x in
      ap (λ (z : Shared F). z.ha_state.generation) (last_of stop HaAction.keep_writer y.1 y.0)
      ∙ ready_generation true (as_writer inner write path) x (inner.keep_writer x.inner) (λ s. refl)

-- The plan of a writer that passes the fence.
kept :
    (r : HaRuntime) (now min_generation : ℕ) (config : PromotionConfig) (lease : LeaseRecord)
    → r.role ≡ writer
    → enforce_write_fence now r.node_id r.local_generation lease ≡ pass
    → ((plan_actions r now (some lease) min_generation config).1.actions
        ≡ HaAction.keep_writer ∷ [])
      × ((plan_actions r now (some lease) min_generation config).0.role ≡ writer)
      × ((plan_actions r now (some lease) min_generation config).0.local_generation
          ≡ r.local_generation)
unfolding plan_actions
kept r now min_generation config lease was passes = rw (was, passes) (refl, refl, refl)

-- The gateway takes no node for the writer whose generation is not that of the lease.
other_generation :
    (s : HaSharedState) (lease : LeaseRecord) (time : ℕ)
    → s.lease_record ≡ some lease
    → lease.generation ≢ s.generation
    → is_writer s time ≡ false
other_generation s lease time e apart = elim (Bool-cases (is_writer s time)) [
  | inl w ↦
      let (writes, (l, q, m)) = (is_writer_iff s time).0 w in
      absurd (
        apart
          (ap (λ (z : LeaseRecord). z.generation) (some-injective lease l (sym e ∙ q)) ∙ m.current))
  | inr w ↦ w
]

-- A node that stays the writer while the gateway has another generation for it.
abbrev pub IsStuck : {F : Type 0} → HaRuntime → Node F → ℕ → Type 0
IsStuck r n generation =
    (n.controller.runtime.role ≡ writer)
    × (n.controller.runtime.local_generation ≡ r.local_generation)
    × (n.shared.ha_state.generation ≡ generation)
    × ((time : ℕ) → is_writer n.shared.ha_state time ≡ false)

abbrev pub read_of : (L : Type 0) → LeaseRecord → LeaseRead L
read_of L lease = LeaseRead.read (some lease)

module _ {F E : Type 0} (inner : HaActionExecutor F E) (write : List Char → String → Call F E)
    (path : Option (List Char)) (service_name : List Char) (grpc_port : ℕ) (now : ℕ) where
  ticked_generation :
      (lease : LeaseRecord) (c : HaController) (x : Shared F)
      → c.runtime.role ≡ writer
      → enforce_write_fence now c.runtime.node_id c.runtime.local_generation lease ≡ pass
      → ((tick (exec inner write path) c now (some lease) x).1.ha_state.generation
          ≡ x.ha_state.generation)
        × ((tick (exec inner write path) c now (some lease) x).0.runtime.role ≡ writer)
        × ((tick (exec inner write path) c now (some lease) x).0.runtime.local_generation
            ≡ c.runtime.local_generation)
  unfolding tick plan_tick execute_controller_plan
  ticked_generation lease c x was passes =
      let (actions, role, same) =
        kept c.runtime now c.min_source_generation c.promotion_config lease was passes in
      (
        ap
              (λ (l : List HaAction).
                (execute_actions (exec inner write path) c.stop_on_error l x).0.ha_state.generation)
              actions
            ∙ keep_writer_generation inner write path c.stop_on_error x,
        role,
        same,
      )

  published_generations :
      (lease : Option LeaseRecord) (s : HaSharedState)
      → (publish_lease service_name grpc_port lease s).generation ≡ s.generation
  unfolding publish_lease
  published_generations none s = refl
  published_generations (some l) s = refl

  -- Where a controller is the writer and holds the lease, in force and at its own generation, but the shared
  -- state has another generation, as after an `enable_writer` that failed: a pass of the loop leaves the
  -- controller the writer and that generation in the shared state, and the gateway takes the node for no
  -- writer at any time until the next pass, to which the same applies.
  pub writer-IsStuck :
      (L : Type 0) (lease : LeaseRecord) (c : HaController) (x : Shared F)
      → c.runtime.role ≡ writer
      → MayWrite now c.runtime.node_id c.runtime.local_generation lease
      → x.ha_state.generation ≢ c.runtime.local_generation
      → IsStuck c.runtime
          (tick_node (exec inner write path) service_name grpc_port now (read_of L lease) c x)
          x.ha_state.generation
  unfolding tick_node tick_with_reader
  writer-IsStuck L lease c x was m apart =
      let passes =
        (enforce_write_fence_iff now c.runtime.node_id c.runtime.local_generation lease).1 m in
      let (generation, role, same) = ticked_generation lease c x was passes in
      let seen = seen_lease inner write path service_name grpc_port now (some lease) c x in
      let y = (tick (exec inner write path) c now (some lease) x).1.ha_state in
      let g = published_generations _ y ∙ generation in
      (
        role,
        same,
        g,
        λ time.
            other_generation _ lease time ((published_lease service_name grpc_port _ y).0 ∙ seen)
              (λ e. apart (sym g ∙ sym e ∙ m.current)),
      )
