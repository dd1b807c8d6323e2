-- ===== src/Ha/Controller/Files.antt =====
-- src/ha.rs: `FileActionExecutor`. The calls of the file system are a parameter. A line of the audit
-- log is kept as the action that it is written for.
pub mod Shape
pub mod Mirror
use rsqlite_rsync.Base.{ℕ, Option, none, some, List, [], ◌∷◌}
use rsqlite_rsync.Protocol.Messages.{Text, plain, format}
use rsqlite_rsync.Ha.Lease.{
  HaAction, ensure_replica, enable_writer, disable_writer, record_promotion_denied,
}
use rsqlite_rsync.Ha.Controller.{HaActionExecutor, Call}

-- `std::fs::write` of the role state file, and an append to the audit log.
pub record FileSystem (F E : Type 0) : Type 0 where
  pub write : Text → F → F × Option E
  pub append : HaAction → F → F × Option E

module _ {F E : Type 0} (files : FileSystem F E) where
  -- `first?; then`.
  abbrev pub followed_by : F × Option E → Call F E → F × Option E
  followed_by (f, none) next = next f
  followed_by (f, some e) next = (f, some e)

  unfoldable pub write_role_state : Text → Call F E
  write_role_state state = files.write state

  unfoldable pub append_audit : HaAction → Call F E
  append_audit line = files.append line

  unfoldable pub file_action_executor : HaActionExecutor F E
  unfolding write_role_state append_audit
  file_action_executor = record {
    ensure_replica =
        λ f. followed_by (write_role_state (plain "replica") f) (append_audit ensure_replica);
    enable_writer = λ generation f.
        followed_by (write_role_state (format "writer:{}" (generation ∷ [])) f)
          (append_audit (enable_writer generation));
    disable_writer = λ reason f.
        followed_by (write_role_state (plain "replica") f) (append_audit (disable_writer reason));
    keep_writer = append_audit HaAction.keep_writer;
    record_promotion_denied = λ violation. append_audit (record_promotion_denied violation);
  }
