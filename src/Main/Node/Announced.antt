-- ===== src/Main/Node/Announced.antt =====
-- src/main.rs, `ReadinessAwareExecutor`: what the actions that are performed announce.
use Prim.Native.Char.{Char}
use rsqlite_rsync.Base.{
  String, ◌≡◌, refl, sym, ap, ◌∙◌, subst, List, [], ◌∷◌, Option, none, some, Bool, true, false,
}
use rsqlite_rsync.Ha.Lease.{
  HaAction, ensure_replica, enable_writer, disable_writer, record_promotion_denied,
}
use rsqlite_rsync.Ha.Runtime.{HaSharedState}
use rsqlite_rsync.Ha.Controller.{
  Call, HaActionExecutor, ActionExecutionFailure, perform, record_failure, execute_actions,
}
use rsqlite_rsync.Main.Node.{
  Shared, with_inner, write_readiness, write_file, publish, ready_after, readiness_aware_executor,
  as_replica, as_writer, as_writer_of,
}

-- An action that is performed changes the shared state and the readiness as it announces.
abbrev pub Announced :
    {F : Type 0} → Bool → (HaSharedState → HaSharedState) → Shared F → Shared F → Type 0
Announced ready change x y = (y.ha_state ≡ change x.ha_state) × (y.readiness_state ≡ ready)

module _ {F E : Type 0} (inner : HaActionExecutor F E) (write : List Char → String → Call F E)
    (path : Option (List Char)) where
  published :
      (ready : Bool) (change : HaSharedState → HaSharedState) (x : Shared F) (p : F × Option E)
      → (publish inner write path change
          (with_inner inner write path (record x { readiness_state = ready }) p)).1
        ≡ none
      → Announced ready change x
          (publish inner write path change
            (with_inner inner write path (record x { readiness_state = ready }) p)).0
  published ready change x (f, none) e = (refl, refl)
  published ready change x (f, some error) e = cc e

  ready_after-Announced :
      (ready : Bool) (change : HaSharedState → HaSharedState) (x : Shared F) (p : F × Option E)
      → (ready_after inner write path ready change (with_inner inner write path x p)).1 ≡ none
      → Announced ready change x
          (ready_after inner write path ready change (with_inner inner write path x p)).0
  unfolding write_readiness
  ready_after-Announced ready change x (f, some error) e = cc e
  ready_after-Announced ready change x (f, none) e =
      published ready change (record x { inner = f }) (write_file inner write path path ready f) e

record_failure-none :
    {X E : Type 0} (executor : HaActionExecutor X E) (stop : Bool) (a : HaAction)
    (result : Option E) (x : X) (rest : X → X × List (ActionExecutionFailure E))
    → (record_failure executor stop a result x rest).1 ≡ []
    → (result ≡ none) × (record_failure executor stop a result x rest ≡ rest x)
record_failure-none executor stop a none x rest e = (refl, refl)
record_failure-none executor true a (some error) x rest e = cc e
record_failure-none executor false a (some error) x rest e = cc e

module _ {F E : Type 0} (inner : HaActionExecutor F E) (write : List Char → String → Call F E)
    (path : Option (List Char)) where
  abbrev pub exec : HaActionExecutor (Shared F) E
  exec = readiness_aware_executor inner write path

  -- What each action announces.
  abbrev change_of : HaAction → HaSharedState → HaSharedState
  change_of ensure_replica = as_replica inner write path
  change_of (enable_writer generation) = as_writer_of inner write path generation
  change_of (disable_writer reason) = as_replica inner write path
  change_of HaAction.keep_writer = as_writer inner write path
  change_of (record_promotion_denied violation) = as_replica inner write path

  abbrev ready_of : HaAction → Bool
  ready_of ensure_replica = false
  ready_of (enable_writer generation) = true
  ready_of (disable_writer reason) = false
  ready_of HaAction.keep_writer = true
  ready_of (record_promotion_denied violation) = false

  perform-Announced :
      (a : HaAction) (x : Shared F)
      → (perform exec a x).1 ≡ none
      → Announced (ready_of a) (change_of a) x (perform exec a x).0
  unfolding perform readiness_aware_executor
  perform-Announced ensure_replica x e =
      ready_after-Announced inner write path false (as_replica inner write path) x
        (inner.ensure_replica x.inner) e
  perform-Announced (enable_writer generation) x e =
      ready_after-Announced inner write path true (as_writer_of inner write path generation) x
        (inner.enable_writer generation x.inner) e
  perform-Announced (disable_writer reason) x e =
      ready_after-Announced inner write path false (as_replica inner write path) x
        (inner.disable_writer reason x.inner) e
  perform-Announced HaAction.keep_writer x e =
      ready_after-Announced inner write path true (as_writer inner write path) x
        (inner.keep_writer x.inner) e
  perform-Announced (record_promotion_denied violation) x e =
      ready_after-Announced inner write path false (as_replica inner write path) x
        (inner.record_promotion_denied violation x.inner) e

  -- The first of the actions of a run without failures, and the rest of the run.
  first_action :
      (stop : Bool) (a : HaAction) (rest : List HaAction) (x : Shared F)
      → (execute_actions exec stop (a ∷ rest) x).1 ≡ []
      → (y : Shared F) × Announced (ready_of a) (change_of a) x y
        × (execute_actions exec stop (a ∷ rest) x ≡ execute_actions exec stop rest y)
  unfolding execute_actions
  first_action stop a rest x e =
      let performed = perform exec a x in
      let p =
        record_failure-none exec stop a performed.1 performed.0 (execute_actions exec stop rest)
          e in
      (performed.0, perform-Announced a x p.0, p.1)

  pub one_action-Announced :
      (stop : Bool) (a : HaAction) (x : Shared F)
      → (execute_actions exec stop (a ∷ []) x).1 ≡ []
      → Announced (ready_of a) (change_of a) x (execute_actions exec stop (a ∷ []) x).0
  unfolding execute_actions
  one_action-Announced stop a x e =
      let (y, p, q) = first_action stop a [] x e in
      subst
        (λ (z : Shared F × List (ActionExecutionFailure E)).
          Announced (ready_of a) (change_of a) x z.0)
        (sym q) p

  pub two_actions-Announced :
      (stop : Bool) (a b : HaAction) (x : Shared F)
      → (execute_actions exec stop (a ∷ b ∷ []) x).1 ≡ []
      → Announced
          (ready_of b)
          (λ s. change_of b (change_of a s))
          x
          (execute_actions exec stop (a ∷ b ∷ []) x).0
  two_actions-Announced stop a b x e =
      let (y, p, q) = first_action stop a (b ∷ []) x e in
      let later =
        one_action-Announced stop b y
          (sym (ap (λ (z : Shared F × List (ActionExecutionFailure E)). z.1) q) ∙ e) in
      subst
        (λ (z : Shared F × List (ActionExecutionFailure E)).
          Announced (ready_of b) (λ s. change_of b (change_of a s)) x z.0)
        (sym q) (later.0 ∙ ap (change_of b) p.0, later.1)
