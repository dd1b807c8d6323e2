-- ===== src/Main/Node/Startup.antt =====
-- src/main.rs, `run_ha_mode`: what the startup fence lets pass.
use rsqlite_rsync.Base.{
  ℕ, ◌≡◌, refl, sym, ap, ◌∙◌, subst, List, [], ◌∷◌, Option, none, some, Bool, true, false, not,
  if◌then◌else◌, String, arith,
}
use Prim.Native.Char.{Char}
use rsqlite_rsync.Error.{SyncError, Result, ok, err, panic, and_then}
use rsqlite_rsync.Ha.Lease.{LeaseRecord, PromotionConfig, writer}
use rsqlite_rsync.Ha.Fence.Rules.{MayWrite}
use rsqlite_rsync.Ha.Runtime.{HaRuntime, reconcile_with_outcome, plan_actions}
use rsqlite_rsync.Ha.Runtime.Safety.{next_keeps, writer_holds}
use rsqlite_rsync.Ha.Controller.{
  Call, HaActionExecutor, HaController, update_freshness, ActionExecutionReport,
  ActionExecutionFailure, is_success, tick, tick_with_reader, plan_tick, execute_controller_plan,
  LeaseRead, failed, report,
}
use rsqlite_rsync.Ha.Controller.Files.Shape.{shape_of}
use rsqlite_rsync.Main.Node.{
  Shared, is_writer_decision, FreshnessRead, not_configured, ledger, unreadable, refreshed,
  require_writer, fenced_tick, startup_fence,
}
use rsqlite_rsync.Main.Node.Announced.{exec}
use rsqlite_rsync.Main.Node.Agrees.{InStep, PlanShape-InStep, lease_of, is_ready}

decision_role :
    (r : HaRuntime) (now : ℕ) (lease : Option LeaseRecord) (min_generation : ℕ)
    (config : PromotionConfig)
    → is_writer_decision (reconcile_with_outcome r now lease min_generation config).1.decision
      ≡ true
    → (reconcile_with_outcome r now lease min_generation config).0.role ≡ writer
unfolding reconcile_with_outcome
decision_role r now none min_generation config h = ground arith
decision_role r now (some lease) min_generation config h = ground arith

-- Two controllers with one name, role and generation.
abbrev Alike : HaController → HaController → Type 0
Alike c c' =
    (c'.runtime.node_id ≡ c.runtime.node_id)
    × (c'.runtime.role ≡ c.runtime.role)
    × (c'.runtime.local_generation ≡ c.runtime.local_generation)

ok-Alike : (c c' : HaController) → ok c ≡ ok c' → Alike c c'
ok-Alike c c' e =
    let same : c' ≡ c = cc e in
    (
      ap (λ (z : HaController). z.runtime.node_id) same,
      ap (λ (z : HaController). z.runtime.role) same,
      ap (λ (z : HaController). z.runtime.local_generation) same,
    )

-- The controller after the freshness is read: as it was if no file is configured, else with the ledger
-- of the file or without one. After a file that cannot be read there is none.
abbrev pub Refreshed : FreshnessRead → HaController → HaController → Type 0
Refreshed not_configured c c' = c' ≡ c
Refreshed (ledger found) c c' = c' ≡ record c { runtime = record c.runtime { freshness = found } }
Refreshed (unreadable error) c c' = ⊥

refreshed-Refreshed :
    (freshness : FreshnessRead) (c c' : HaController)
    → refreshed freshness c ≡ ok c'
    → Refreshed freshness c c'
unfolding update_freshness rsqlite_rsync.Ha.Runtime.update_freshness
    rsqlite_rsync.Ha.Runtime.clear_freshness
refreshed-Refreshed not_configured c c' e = cc e
refreshed-Refreshed (ledger (some f)) c c' e = cc e
refreshed-Refreshed (ledger none) c c' e = cc e
refreshed-Refreshed (unreadable x) c c' e = cc e

refreshed-Alike :
    (freshness : FreshnessRead) (c c' : HaController) → refreshed freshness c ≡ ok c' → Alike c c'
unfolding update_freshness rsqlite_rsync.Ha.Runtime.update_freshness
    rsqlite_rsync.Ha.Runtime.clear_freshness
refreshed-Alike not_configured c c' e = ok-Alike _ c' e
refreshed-Alike (ledger (some f)) c c' e = ok-Alike _ c' e
refreshed-Alike (ledger none) c c' e = ok-Alike _ c' e
refreshed-Alike (unreadable x) c c' e = cc e

and_then_ok :
    {A B : Type 0} (r : Result A) (f : A → Result B) (b : B)
    → and_then r f ≡ ok b
    → (a : A) × (r ≡ ok a) × (f a ≡ ok b)
and_then_ok (ok a) f b e = (a, refl, e)
and_then_ok (err x) f b e = cc e
and_then_ok panic f b e = cc e

no_failure : {E : Type 0} (r : ActionExecutionReport E) → is_success r ≡ true → r.failures ≡ []
no_failure {E} r e = go r.failures e
  where
    go :
        (l : List (ActionExecutionFailure E))
        → is_success (record r { failures = l }) ≡ true
        → l ≡ []
    go [] e = refl
    go (x ∷ l) e = cc e

module _ {F E : Type 0} (inner : HaActionExecutor F E) (write : List Char → String → Call F E)
    (path : Option (List Char)) where
  -- The node that passes: the writer, with the lease, and in step with what the gateway sees.
  abbrev pub Passes :
      HaController → Shared F → ℕ → Option LeaseRecord → HaController × Shared F → Type 0
  Passes c x now lease (c', x') =
      (c'.runtime.role ≡ writer)
      × ((l : LeaseRecord) × (lease ≡ some l)
          × MayWrite now c.runtime.node_id c'.runtime.local_generation l)
      × (InStep c.runtime x → InStep c'.runtime x')

  tests_passed :
      {A : Type 0} (a b : Bool) (x y : SyncError) (z p : A)
      → (if not a then err x else if not b then err y else ok z) ≡ ok p
      → (a ≡ true) × (b ≡ true) × (z ≡ p)
  tests_passed true true x y z p e = (refl, refl, cc e)
  tests_passed true false x y z p e = cc e
  tests_passed false b x y z p e = cc e

  tick-Passes :
      (c : HaController) (x : Shared F) (now : ℕ) (lease : Option LeaseRecord)
      → is_writer_decision (tick (exec inner write path) c now lease x).2.plan.outcome.decision
        ≡ true
      → (tick (exec inner write path) c now lease x).2.failures ≡ []
      → Passes c x now lease (
        (tick (exec inner write path) c now lease x).0,
        (tick (exec inner write path) c now lease x).1,
      )
  unfolding tick plan_tick execute_controller_plan plan_actions
  tick-Passes c x now lease decided done =
      let role =
        decision_role c.runtime now lease c.min_source_generation c.promotion_config decided in
      let p = plan_actions c.runtime now lease c.min_source_generation c.promotion_config in
      (
        role,
        writer_holds c.runtime now c.min_source_generation c.promotion_config lease role,
        λ i.
            PlanShape-InStep inner write path c.stop_on_error c.runtime p.0 p.1.actions x
              (shape_of c.runtime now lease c.min_source_generation c.promotion_config)
              (next_keeps c.runtime now c.min_source_generation c.promotion_config lease).0 i done,
      )

  refreshed-Passes :
      (c c1 : HaController) (x : Shared F) (now : ℕ) (lease : Option LeaseRecord)
      (p : HaController × Shared F)
      → Alike c c1
      → Passes c1 x now lease p
      → Passes c x now lease p
  refreshed-Passes c c1 x now lease (c', x') (n, r, g) (role, (l, q, m), step) = (
    role,
    (l, q, subst (λ (s : String). MayWrite now s c'.runtime.local_generation l) n m),
    λ i. step (record {
      same_node = i.same_node ∙ sym n;
      same_role = i.same_role ∙ sym r;
      readiness = i.readiness ∙ sym (ap is_ready r);
      same_generation = λ w. i.same_generation (sym r ∙ w) ∙ sym g;
    }),
  )

  fenced-Passes :
      {L : Type 0} (l : LeaseRead L) (c : HaController) (x : Shared F) (now : ℕ)
      (p : HaController × Shared F)
      → fenced_tick (exec inner write path) (tick_with_reader (exec inner write path) c now l x)
        ≡ ok p
      → Passes c x now (lease_of l) p
        × ((report (tick_with_reader (exec inner write path) c now l x).2).failures ≡ [])
  unfolding tick_with_reader
  fenced-Passes (failed error) c x now p e = cc e
  fenced-Passes (LeaseRead.read lease) c x now p e =
      let (decided, done, same) = tests_passed _ _ _ _ _ p e in
      let clean = no_failure (tick (exec inner write path) c now lease x).2 done in
      (subst (Passes c x now lease) same (tick-Passes c x now lease decided clean), clean)

  -- With the mode `RequireWriter` the loop of an HA node is reached only if the freshness file, where one is
  -- configured, and the clock could be read, and the tick of the startup fence, which is made with the ledger of
  -- that file, has performed all its actions and made the node the writer. Then the lease was read, and it is
  -- the node's own, in force at the time of that tick and of the node's generation; and what the gateway and
  -- the readiness endpoint see is in step with the controller, if it was before.
  pub startup_fence-Passes :
      {L : Type 0} (freshness : FreshnessRead) (clock : Result ℕ) (l : LeaseRead L)
      (c : HaController) (x : Shared F) (p : HaController × Shared F)
      → startup_fence (exec inner write path) require_writer freshness clock l c x ≡ ok p
      → (now : ℕ) × (refreshed_controller : HaController) × (clock ≡ ok now)
        × Refreshed freshness c refreshed_controller
        × ((report
              (tick_with_reader (exec inner write path) refreshed_controller now l x).2).failures
            ≡ [])
        × Passes c x now (lease_of l) p
  unfolding startup_fence
  startup_fence-Passes freshness clock l c x p e =
      let (c1, refreshing, rest) = and_then_ok (refreshed freshness c) _ p e in
      let (now, read_clock, last) = and_then_ok clock _ p rest in
      let (passes, clean) = fenced-Passes l c1 x now p last in
      (
        now,
        c1,
        read_clock,
        refreshed-Refreshed freshness c c1 refreshing,
        clean,
        refreshed-Passes c c1 x now (lease_of l) p (refreshed-Alike freshness c c1 refreshing)
            passes,
      )
