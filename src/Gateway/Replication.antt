-- ===== src/Gateway/Replication.antt =====
-- src/gateway/replication.rs: `ReplicationServer::sync`, the checks before a session, and what the task of a
-- session does with its connection, its lock and its transport. The two handlers are those of the protocol.
pub mod Admitted
use Prim.Native.Char.{Char}
use rsqlite_rsync.Base.{
  ℕ, zero, suc, String, List, [], ◌∷◌, ◌++◌, Option, none, some, Bool, true, false, if◌then◌else◌,
}
use rsqlite_rsync.Error.{SyncError, Result, ok, err, panic}
use rsqlite_rsync.Ha.Runtime.{HaSharedState, is_writer}
use rsqlite_rsync.Gateway.Status.{
  Tonic, invalid_argument, failed_precondition, internal, Status, status, says, shows, shows_with,
}
use rsqlite_rsync.Gateway.Auth.{AuthConfig, Access, accepted, denied, check_request_or_token}
use rsqlite_rsync.Gateway.Host.{Host}
use rsqlite_rsync.Gateway.Paths.{DatabaseEngine, resolve_db_path}
use rsqlite_rsync.Gateway.Server.{Reply, replied, rejected, once}

pub record ReplicationServer : Type 0 where
  pub engine : DatabaseEngine
  pub auth : AuthConfig
  pub ha_state : Option HaSharedState

pub record SyncInit : Type 0 where
  pub database : List Char
  pub client_role : ℕ
  pub auth_token : List Char

-- What `message()` gives for the first message of the stream.
pub data FirstMessage : Type 0 where
  not_received : SyncError → FirstMessage
  closed other_message : FirstMessage
  init_message : SyncInit → FirstMessage

pub data ClientRole : Type 0 where
  as_replica as_origin : ClientRole

-- A session that is started: the role of the client, the file and the name of its lock.
pub record Session : Type 0 where
  pub client_role : ClientRole
  pub db_path : List Char
  pub db_name : List Char

module _ (t : Tonic) (h : Host) where
  open t use {Value}
  open h use {World}

  abbrev pub first_init : FirstMessage → Reply Value SyncInit
  first_init (not_received e) =
      rejected (status internal (shows_with "failed to receive initial sync message: {e}" [] e))
  first_init closed =
      rejected (status invalid_argument (says "client closed stream before sending SyncInit"))
  first_init other_message =
      rejected
        (status invalid_argument (says "first message on replication stream must be SyncInit"))
  first_init (init_message init) = replied init

  abbrev pub admitted : Access Value → Reply Value (Unit {0})
  admitted accepted = replied tt
  admitted (denied s) = rejected s

  -- `ClientRole::try_from`, and the roles that are served.
  unfoldable pub role_of : ℕ → Reply Value ClientRole
  role_of zero = rejected (
      status invalid_argument
        (says "client_role must be CLIENT_ROLE_REPLICA or CLIENT_ROLE_ORIGIN"))
  role_of (suc zero) = replied as_replica
  role_of (suc (suc zero)) = replied as_origin
  role_of (suc (suc (suc n))) = rejected (
      status invalid_argument
        (says "client_role must be CLIENT_ROLE_REPLICA or CLIENT_ROLE_ORIGIN"))

  abbrev pub if_no_writer : Bool → Reply Value (Unit {0})
  if_no_writer true =
      rejected
        (status failed_precondition (says "cannot push replication to an active writer node"))
  if_no_writer false = replied tt

  abbrev pub may_push : ClientRole → Option HaSharedState → ℕ → Reply Value (Unit {0})
  may_push as_replica state now = replied tt
  may_push as_origin none now = replied tt
  may_push as_origin (some state) now = if_no_writer (is_writer state now)

  -- A panic of the call is kept as an internal error.
  abbrev pub path_reply : List Char → Result (List Char) → Reply Value (List Char)
  path_reply database (ok path) = replied path
  path_reply database (err e) =
      rejected (status invalid_argument (shows_with "invalid database name '{}': {e}" database e))
  path_reply database panic = rejected (status internal (says "panic"))

  module _ (server : ReplicationServer) (metadata : List (String × Value)) (now : ℕ) where
    abbrev pub with_path : SyncInit → List Char → Reply Value Session
    with_path init path = once (role_of init.client_role) (λ role.
        once (may_push role server.ha_state now)
          (λ _. replied (record { client_role = role; db_path = path; db_name = init.database })))

    abbrev pub after_path : SyncInit → World × Result (List Char) → World × Reply Value Session
    after_path init (w, r) = (w, once (path_reply init.database r) (with_path init))

    abbrev pub with_access : SyncInit → Reply Value (Unit {0}) → World → World × Reply Value Session
    with_access init (rejected s) w = (w, rejected s)
    with_access init (replied u) w =
        after_path init (resolve_db_path h server.engine init.database w)

    abbrev pub with_init : Reply Value SyncInit → World → World × Reply Value Session
    with_init (rejected s) w = (w, rejected s)
    with_init (replied init) w =
        with_access init
          (admitted (check_request_or_token t server.auth metadata (some init.auth_token))) w

    -- The session that is started, or the status; and the state, since the directory of the file is created.
    unfoldable pub sync : FirstMessage → World → World × Reply Value Session
    unfolding role_of is_writer check_request_or_token resolve_db_path
    sync first w = with_init (first_init first) w

-- What the task of a session does, one after another.
pub data Effect : Type 0 where
  take_lock release_lock run_handler commit close : Effect
  send_error : SyncError → Effect
  send_timed_out : Effect

-- How the handler ends: `Ok(Ok)`, `Ok(Err)`, or the timeout.
pub data RunEnd : Type 0 where
  finished timed_out : RunEnd
  failed : SyncError → RunEnd

abbrev pub report_end : RunEnd → List Effect
report_end finished = []
report_end timed_out = send_timed_out ∷ []
report_end (failed e) = send_error e ∷ []

-- The client is the replica: opening the origin, its snapshot, and the run.
unfoldable pub pull_task : Option SyncError → Option SyncError → RunEnd → List Effect
pull_task (some e) snapshot end = send_error e ∷ close ∷ []
pull_task none (some e) end = send_error e ∷ close ∷ []
pull_task none none end = run_handler ∷ (report_end end ++ (commit ∷ close ∷ []))

-- The client is the origin: the lock, opening the replica, and the run.
unfoldable pub push_task : Option SyncError → RunEnd → List Effect
push_task (some e) end = take_lock ∷ release_lock ∷ send_error e ∷ close ∷ []
push_task none end = take_lock ∷ run_handler ∷ release_lock ∷ (report_end end ++ (close ∷ []))
