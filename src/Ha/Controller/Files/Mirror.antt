-- ===== src/Ha/Controller/Files/Mirror.antt =====
-- src/ha.rs: the role state file and the role of the controller's runtime.
use rsqlite_rsync.Base.{ℕ, ◌≡◌, refl, ap, ◌∙◌, Option, none, some, List, [], ◌∷◌, Bool, true, false}
use rsqlite_rsync.Protocol.Messages.{Text, plain, format}
use rsqlite_rsync.Ha.Lease.{
  LeaseRecord, NodeRole, writer, replica, HaAction, ensure_replica, enable_writer, disable_writer,
  record_promotion_denied,
}
use rsqlite_rsync.Ha.Runtime.{HaRuntime}
use rsqlite_rsync.Ha.Controller.{
  ActionExecutionFailure, HaController, perform, execute_actions, record_failure, tick,
}
use rsqlite_rsync.Ha.Controller.Files.{FileSystem, file_action_executor, followed_by}
use rsqlite_rsync.Ha.Controller.Files.Shape.{
  PlanShape, is_replica, is_promoted, is_kept, is_demoted, shape_of,
}

-- What the role state file holds for a role.
abbrev pub role_text : NodeRole → ℕ → Text
role_text writer generation = format "writer:{}" (generation ∷ [])
role_text replica generation = plain "replica"

-- The file system, with a view of the role state file: a write succeeds and leaves what was written,
-- and an append leaves the file as it was, whether or not it succeeds.
pub record IsReliable {F E : Type 0} (files : FileSystem F E) (role_state : F → Text) : Type 0 where
  pub write_ok : (t : Text) (f : F) → (files.write t f).1 ≡ none
  pub written : (t : Text) (f : F) → (files.write t f).1 ≡ none → role_state (files.write t f).0 ≡ t
  pub append_keeps : (a : HaAction) (f : F) → role_state (files.append a f).0 ≡ role_state f

module _ {F E : Type 0} (files : FileSystem F E) (role_state : F → Text)
    (reliable : IsReliable files role_state) where
  -- The content of the role state file after an action.
  abbrev after_action : HaAction → Text → Text
  after_action ensure_replica t = plain "replica"
  after_action (enable_writer generation) t = format "writer:{}" (generation ∷ [])
  after_action (disable_writer reason) t = plain "replica"
  after_action HaAction.keep_writer t = t
  after_action (record_promotion_denied violation) t = t

  write_then_append :
      (t : Text) (a : HaAction) (f : F)
      → role_state (followed_by files (files.write t f) (files.append a)).0 ≡ t
  write_then_append t a f =
      go (files.write t f) (reliable.written t f (reliable.write_ok t f)) (reliable.write_ok t f)
    where
      go :
          (r : F × Option E)
          → role_state r.0 ≡ t
          → r.1 ≡ none
          → role_state (followed_by files r (files.append a)).0 ≡ t
      go (f', none) e ok = reliable.append_keeps a f' ∙ e
      go (f', some x) e ok = cc

  perform-role_state :
      (a : HaAction) (f : F)
      → role_state (perform (file_action_executor files) a f).0 ≡ after_action a (role_state f)
  unfolding perform file_action_executor
  perform-role_state ensure_replica f = write_then_append (plain "replica") ensure_replica f
  perform-role_state (enable_writer generation) f = write_then_append _ (enable_writer generation) f
  perform-role_state (disable_writer reason) f = write_then_append _ (disable_writer reason) f
  perform-role_state HaAction.keep_writer f = reliable.append_keeps HaAction.keep_writer f
  perform-role_state (record_promotion_denied violation) f =
      reliable.append_keeps (record_promotion_denied violation) f

  -- What holds after the action and after the rest holds when the run has stopped.
  either_end :
      (P : F → Type 0) (stop : Bool) (a : HaAction) (result : Option E) (f : F)
      (rest : F → F × List (ActionExecutionFailure E))
      → P f
      → P (rest f).0
      → P (record_failure (file_action_executor files) stop a result f rest).0
  either_end P stop a none f rest here later = later
  either_end P true a (some e) f rest here later = here
  either_end P false a (some e) f rest here later = later

  one_action :
      (stop : Bool) (a : HaAction) (f : F)
      → role_state (execute_actions (file_action_executor files) stop (a ∷ []) f).0
        ≡ after_action a (role_state f)
  unfolding execute_actions
  one_action stop a f =
      either_end (λ x. role_state x ≡ after_action a (role_state f)) stop a _ _
        (execute_actions (file_action_executor files) stop []) (perform-role_state a f)
        (perform-role_state a f)

  two_actions :
      (stop : Bool) (a b : HaAction) (f : F)
      → after_action b (after_action a (role_state f)) ≡ after_action a (role_state f)
      → role_state (execute_actions (file_action_executor files) stop (a ∷ b ∷ []) f).0
        ≡ after_action a (role_state f)
  unfolding execute_actions
  two_actions stop a b f settled =
      let f' = (perform (file_action_executor files) a f).0 in
      either_end (λ x. role_state x ≡ after_action a (role_state f)) stop a _ f'
        (execute_actions (file_action_executor files) stop (b ∷ [])) (perform-role_state a f)
        (one_action stop b f' ∙ ap (after_action b) (perform-role_state a f) ∙ settled)

  shape_mirrors :
      (r r' : HaRuntime) (actions : List HaAction) (stop : Bool) (f : F)
      → PlanShape r r' actions
      → role_state f ≡ role_text r.role r.local_generation
      → role_state (execute_actions (file_action_executor files) stop actions f).0
        ≡ role_text r'.role r'.local_generation
  shape_mirrors r r' _ stop f (is_replica none now_replica) before =
      one_action stop ensure_replica f ∙ rw now_replica refl
  shape_mirrors r r' _ stop f (is_replica (some violation) now_replica) before =
      two_actions stop ensure_replica (record_promotion_denied violation) f refl
      ∙ rw now_replica refl
  shape_mirrors r r' _ stop f (is_promoted generation now_writer current) before =
      one_action stop (enable_writer generation) f ∙ rw (now_writer, current) refl
  shape_mirrors r r' _ stop f (is_kept was now_writer same) before =
      one_action stop HaAction.keep_writer f ∙ before ∙ rw (was, now_writer, same) refl
  shape_mirrors r r' _ stop f (is_demoted reason now_replica) before =
      two_actions stop (disable_writer reason) ensure_replica f refl ∙ rw now_replica refl

  -- If the role state file says what the controller's role is, it says so after a tick, whatever the
  -- lease, the policy and `stop_on_error`, and whether or not the audit log can be written. A write
  -- of the role state file succeeds, and an append to the audit log leaves that file alone.
  pub tick-mirrors :
      (c : HaController) (now : ℕ) (lease : Option LeaseRecord) (f : F)
      → role_state f ≡ role_text c.runtime.role c.runtime.local_generation
      → role_state (tick (file_action_executor files) c now lease f).1
        ≡ role_text
            (tick (file_action_executor files) c now lease f).0.runtime.role
            (tick (file_action_executor files) c now lease f).0.runtime.local_generation
  unfolding tick
  tick-mirrors c now lease f before =
      shape_mirrors c.runtime _ _ c.stop_on_error f
        (shape_of c.runtime now lease c.min_source_generation c.promotion_config) before
