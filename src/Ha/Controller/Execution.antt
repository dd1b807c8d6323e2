-- ===== src/Ha/Controller/Execution.antt =====
-- src/ha.rs: the actions of a plan, their execution, and the fail-safe tick.
use rsqlite_rsync.Base.{
  ℕ, ◌≡◌, refl, ap, ◌∙◌, ◌⊎◌, inl, inr, Option, none, some, List, [], ◌∷◌, ◌++◌, true, false,
}
use rsqlite_rsync.Ha.Lease.{HaAction, replica, lease_missing, disable_writer, ensure_replica}
use rsqlite_rsync.Ha.Runtime.{by_role}
use rsqlite_rsync.Ha.Runtime.Safety.{no_lease_no_writer, role_cases}
use rsqlite_rsync.Ha.Controller.{
  record_failure, HaActionExecutor, ActionExecutionFailure, perform, execute_actions,
  execute_controller_plan, HaController, plan_tick, tick_with_reader, failed, lease_read_failed,
}

-- The plan of a tick with no lease.
fallback_actions :
    (c : HaController) (now : ℕ)
    → (plan_tick c now none).1.actions
      ≡ by_role c.runtime.role
          (disable_writer lease_missing ∷ ensure_replica ∷ [])
          (ensure_replica ∷ [])
unfolding plan_tick
fallback_actions c now = elim (role_cases c.runtime.role) [
  | inl was ↦ rw was refl
  | inr was ↦ rw was refl
]

module _ {X E : Type 0} (executor : HaActionExecutor X E) where
  -- The executor's states along a list of actions that are all performed.
  abbrev pub perform_all : List HaAction → X → X
  perform_all [] x = x
  perform_all (action ∷ rest) x = perform_all rest (perform executor action x).0

  abbrev failure : HaAction → E → ActionExecutionFailure E
  failure action e = record { action = action; error = e }

  -- The failures along it.
  abbrev failure_of : HaAction → Option E → List (ActionExecutionFailure E)
  failure_of action none = []
  failure_of action (some e) = failure action e ∷ []

  abbrev pub failures_along : List HaAction → X → List (ActionExecutionFailure E)
  failures_along [] x = []
  failures_along (action ∷ rest) x =
      failure_of action (perform executor action x).1
      ++ failures_along rest (perform executor action x).0

  recorded :
      (action : HaAction) (result : Option E) (x y : X) (failures : List (ActionExecutionFailure E))
      (rest : X → X × List (ActionExecutionFailure E))
      → rest x ≡ (y, failures)
      → record_failure executor false action result x rest
        ≡ (y, failure_of action result ++ failures)
  recorded action none x y failures rest same = same
  recorded action (some e) x y failures rest same =
      ap (λ (q : X × List (ActionExecutionFailure E)). (q.0, failure action e ∷ q.1)) same

  -- Without `stop_on_error` every action is performed, in order, and every failure is reported.
  pub execute_all :
      (actions : List HaAction) (x : X)
      → execute_actions executor false actions x ≡ (perform_all actions x, failures_along actions x)
  unfolding execute_actions
  execute_all [] x = refl
  execute_all (action ∷ rest) x =
      let x' = (perform executor action x).0 in
      recorded action (perform executor action x).1 x' (perform_all rest x')
        (failures_along rest x') (execute_actions executor false rest) (execute_all rest x')

  -- A run that stops: the actions before the first failure, the action that fails, its error.
  pub record FirstFailure (actions : List HaAction) (x : X) : Type 0 where
    pub done : List HaAction
    pub action : HaAction
    pub rest : List HaAction
    pub error : E
    pub splits : actions ≡ done ++ action ∷ rest
    pub before : failures_along done x ≡ []
    pub fails : (perform executor action (perform_all done x)).1 ≡ some error

  abbrev pub stopped_at :
      {actions : List HaAction} {x : X}
      → FirstFailure actions x
      → X × List (ActionExecutionFailure E)
  stopped_at {x} f = (
    (perform executor f.action (perform_all f.done x)).0,
    record { action = f.action; error = f.error } ∷ [],
  )

  result_cases : (o : Option E) → (o ≡ none) ⊎ ((e : E) × (o ≡ some e))
  result_cases none = inl refl
  result_cases (some e) = inr (e, refl)

  module _ (action : HaAction) (rest : List HaAction) (x : X) where
    goes_on :
        (perform executor action x).1 ≡ none
        → execute_actions executor true (action ∷ rest) x
          ≡ execute_actions executor true rest (perform executor action x).0
    unfolding execute_actions
    goes_on ok =
        ap
          (λ (o : Option E).
            record_failure executor true action o (perform executor action x).0
              (execute_actions executor true rest))
          ok

    stops :
        (e : E)
        → (perform executor action x).1 ≡ some e
        → execute_actions executor true (action ∷ rest) x
          ≡ ((perform executor action x).0, failure action e ∷ [])
    unfolding execute_actions
    stops e broken =
        ap
          (λ (o : Option E).
            record_failure executor true action o (perform executor action x).0
              (execute_actions executor true rest))
          broken

    no_failure :
        (perform executor action x).1 ≡ none
        → failures_along rest (perform executor action x).0 ≡ []
        → failures_along (action ∷ rest) x ≡ []
    no_failure ok none_after =
        ap
          (λ (o : Option E).
            failure_of action o ++ failures_along rest (perform executor action x).0)
          ok
        ∙ none_after

  -- With `stop_on_error`, either no action fails and all are performed, or the run ends with the
  -- first action that fails, after all those before it, and reports just that failure.
  pub execute_until_failure :
      (actions : List HaAction) (x : X)
      → ((failures_along actions x ≡ [])
          × (execute_actions executor true actions x ≡ (perform_all actions x, [])))
        ⊎ ((f : FirstFailure actions x) × (execute_actions executor true actions x ≡ stopped_at f))
  unfolding execute_actions
  execute_until_failure [] x = inl (refl, refl)
  execute_until_failure (action ∷ rest) x = elim (result_cases (perform executor action x).1) [
    | inr (e, broken) ↦ inr (
      record {
        done = [];
        action = action;
        rest = rest;
        error = e;
        splits = refl;
        before = refl;
        fails = broken;
      },
      stops action rest x e broken,
    )
    | inl ok ↦ elim (execute_until_failure rest (perform executor action x).0) [
      | inl (quiet, same) ↦ inl (no_failure action rest x ok quiet, goes_on action rest x ok ∙ same)
      | inr (f, same) ↦ inr (
        record {
          done = action ∷ f.done;
          action = f.action;
          rest = f.rest;
          error = f.error;
          splits = ap (λ (l : List HaAction). action ∷ l) f.splits;
          before = no_failure action f.done x ok f.before;
          fails = f.fails;
        },
        goes_on action rest x ok ∙ same,
      )
    ]
  ]

  -- The tick of a controller whose lease cannot be read ends as a replica, whatever it was; the
  -- error is reported with the report of the fallback plan, which takes the role from a writer and
  -- confirms it to a replica.
  pub fail_safe :
      {L : Type 0} (c : HaController) (now : ℕ) (error : L) (x : X)
      → ((tick_with_reader executor c now (failed error) x).0.runtime.role ≡ replica)
        × ((tick_with_reader executor c now (failed error) x).2
            ≡ lease_read_failed error
                (execute_controller_plan executor (plan_tick c now none).1 c.stop_on_error x).1)
        × ((plan_tick c now none).1.actions
            ≡ by_role c.runtime.role
                (disable_writer lease_missing ∷ ensure_replica ∷ [])
                (ensure_replica ∷ []))
  unfolding tick_with_reader
  fail_safe c now error x = (
    no_lease_no_writer c.runtime now c.min_source_generation c.promotion_config,
    refl,
    fallback_actions c now,
  )
