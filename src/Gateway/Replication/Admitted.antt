-- ===== src/Gateway/Replication/Admitted.antt =====
-- src/gateway/replication.rs, `sync`: which sessions are started.
use Prim.Native.Char.{Char}
use rsqlite_rsync.Base.{
  ℕ, zero, suc, String, ◌≡◌, refl, sym, ap, subst, ◌∙◌, ◌⊎◌, inl, inr, List, [], Option, none, some,
  Bool, true, false,
}
use rsqlite_rsync.Error.{Result, ok, err, panic}
use rsqlite_rsync.KvText.{trim}
use rsqlite_rsync.Ha.Runtime.{HaSharedState, is_writer}
use rsqlite_rsync.Gateway.Status.{Tonic}
use rsqlite_rsync.Gateway.Auth.{Access, accepted, denied, check_request_or_token}
use rsqlite_rsync.Gateway.Auth.Accepted.{Presents, accepted_iff}
use rsqlite_rsync.Gateway.Host.{Host, continue_call, pure_call}
use rsqlite_rsync.Gateway.Paths.{join, resolve_db_path}
use rsqlite_rsync.Gateway.Paths.Safe.{Inside, resolve_db_path_cases}
use rsqlite_rsync.Gateway.Server.{Reply, replied, rejected, once}
use rsqlite_rsync.Gateway.Replication.{
  ReplicationServer, SyncInit, FirstMessage, not_received, closed, other_message, init_message,
  ClientRole, as_replica, as_origin, Session, admitted, role_of, if_no_writer, may_push, path_reply,
  with_path, after_path, with_access, sync,
}

once_replied :
    {V A B : Type 0} (r : Reply V A) (f : A → Reply V B) (b : B)
    → once r f ≡ replied b
    → (a : A) × (r ≡ replied a) × (f a ≡ replied b)
once_replied (replied a) f b e = (a, refl, e)
once_replied (rejected s) f b e = cc e

-- The role that the number of a client says, and when it may push.
abbrev pub MayPush : Option HaSharedState → ℕ → Type 0
MayPush none now = Unit
MayPush (some state) now = is_writer state now ≡ false

abbrev pub Plays : Option HaSharedState → ℕ → ℕ → ClientRole → Type 0
Plays state now number as_replica = number ≡ 1
Plays state now number as_origin = (number ≡ 2) × MayPush state now

module _ (t : Tonic) (h : Host) where
  role_number :
      (number : ℕ) (role : ClientRole)
      → role_of t h number ≡ replied role
      → ((number ≡ 1) × (role ≡ as_replica)) ⊎ ((number ≡ 2) × (role ≡ as_origin))
  unfolding role_of
  role_number zero role e = cc e
  role_number (suc zero) role e = inl (refl, cc e)
  role_number (suc (suc zero)) role e = inr (refl, cc e)
  role_number (suc (suc (suc n))) role e = cc e

  no_writer : (b : Bool) (u : Unit {0}) → if_no_writer t h b ≡ replied u → b ≡ false
  no_writer true u e = cc e
  no_writer false u e = refl

  may_push-MayPush :
      (state : Option HaSharedState) (now : ℕ) (u : Unit {0})
      → may_push t h as_origin state now ≡ replied u
      → MayPush state now
  may_push-MayPush none now u e = tt
  may_push-MayPush (some state) now u e = no_writer (is_writer state now) u e

  -- What is known of a session that is started.
  abbrev pub Admits :
      ReplicationServer → List (String × t.Value) → ℕ → FirstMessage → Session → Type 0
  Admits server metadata now first session =
      (init : SyncInit) × (first ≡ init_message init)
      × ((expected : List Char)
          → server.auth.token ≡ some expected
          → Presents t metadata (some init.auth_token) expected)
      × Inside (trim init.database)
      × (session.db_path ≡ join server.engine.data_dir (trim init.database))
      × (session.db_name ≡ init.database)
      × Plays server.ha_state now init.client_role session.client_role

  module _ (server : ReplicationServer) (metadata : List (String × t.Value)) (now : ℕ) where
    with_path-Plays :
        (init : SyncInit) (path : List Char) (session : Session)
        → with_path t h server metadata now init path ≡ replied session
        → (session.db_path ≡ path)
          × (session.db_name ≡ init.database)
          × Plays server.ha_state now init.client_role session.client_role
    with_path-Plays init path session e =
        let (role, p, q) = once_replied (role_of t h init.client_role) _ session e in
        let (u, m, s) = once_replied (may_push t h role server.ha_state now) _ session q in
        let made : record { client_role = role; db_path = path; db_name = init.database }
            ≡ session =
          cc s in
        (
          ap (λ (z : Session). z.db_path) (sym made),
          ap (λ (z : Session). z.db_name) (sym made),
          subst (λ (z : Session). Plays server.ha_state now init.client_role z.client_role) made
              (plays init.client_role role u (role_number init.client_role role p) m),
        )
      where
        plays :
            (number : ℕ) (role : ClientRole) (u : Unit {0})
            → ((number ≡ 1) × (role ≡ as_replica)) ⊎ ((number ≡ 2) × (role ≡ as_origin))
            → may_push t h role server.ha_state now ≡ replied u
            → Plays server.ha_state now number role
        plays number as_replica u (inl x) m = x.0
        plays number as_origin u (inl x) m = cc (x.1)
        plays number as_replica u (inr x) m = cc (x.1)
        plays number as_origin u (inr x) m = (x.0, may_push-MayPush server.ha_state now u m)

    path_replied :
        (database : List Char) (r : Result (List Char)) (path : List Char)
        → path_reply t h database r ≡ replied path
        → r ≡ ok path
    path_replied database (ok p) path e = ap ok (cc e)
    path_replied database (err x) path e = cc e
    path_replied database panic path e = cc e

    created :
        (r : h.World × Result (Unit {0})) (full path : List Char)
        → (continue_call r (λ _. pure_call (ok full))).1 ≡ ok path
        → path ≡ full
    created (w, ok u) full path e = cc e
    created (w, err x) full path e = cc e
    created (w, panic) full path e = cc e

    after_path-Admits :
        (init : SyncInit) (w : h.World) (session : Session)
        → (after_path t h server metadata now init
            (resolve_db_path h server.engine init.database w)).1
          ≡ replied session
        → Inside (trim init.database)
          × (session.db_path ≡ join server.engine.data_dir (trim init.database))
          × (session.db_name ≡ init.database)
          × Plays server.ha_state now init.client_role session.client_role
    after_path-Admits init w session e =
        let resolved = resolve_db_path h server.engine init.database w in
        let (path, p, q) = once_replied (path_reply t h init.database resolved.1) _ session e in
        let (a, b, c) = with_path-Plays init path session q in
        let (inside, same) = safe path (path_replied init.database resolved.1 path p) in
        (inside, a ∙ same, b, c)
      where
        safe :
            (path : List Char)
            → (resolve_db_path h server.engine init.database w).1 ≡ ok path
            → Inside (trim init.database)
              × (path ≡ join server.engine.data_dir (trim init.database))
        safe path e = elim (resolve_db_path_cases h server.engine init.database w) [
          | inl (i, same) ↦ (
            i,
            created (h.create_parent (join server.engine.data_dir (trim init.database)) w) _ path
                (sym (ap (λ (x : h.World × Result (List Char)). x.1) same) ∙ e),
          )
          | inr (i, (x, failed)) ↦
              cc (sym (ap (λ (y : h.World × Result (List Char)). y.1) failed) ∙ e)
        ]

    with_access-Admits :
        (init : SyncInit) (a : Access t.Value) (w : h.World) (session : Session)
        → check_request_or_token t server.auth metadata (some init.auth_token) ≡ a
        → (with_access t h server metadata now init (admitted t h a) w).1 ≡ replied session
        → Admits server metadata now (init_message init) session
    with_access-Admits init (denied s) w session k e = cc e
    with_access-Admits init accepted w session k e =
        let (inside, path, name, plays) = after_path-Admits init w session e in
        (
          init,
          refl,
          (accepted_iff t server.auth metadata (some init.auth_token) []).2.0 k,
          inside,
          path,
          name,
          plays,
        )

    -- A replication session is started only for a stream whose first message is a `SyncInit`, with the token of the
    -- server in its header or in that message where the server has one; for a database whose name stays below
    -- the data directory, and on the file of that name; and for a client that is the replica, or that is the
    -- origin while the node is not the writer, or is not part of a cluster.
    pub sync-Admits :
        (first : FirstMessage) (w : h.World) (session : Session)
        → (sync t h server metadata now first w).1 ≡ replied session
        → Admits server metadata now first session
    unfolding sync
    sync-Admits (not_received x) w session e = cc e
    sync-Admits closed w session e = cc e
    sync-Admits other_message w session e = cc e
    sync-Admits (init_message init) w session e =
        with_access-Admits init
          (check_request_or_token t server.auth metadata (some init.auth_token)) w session refl e
