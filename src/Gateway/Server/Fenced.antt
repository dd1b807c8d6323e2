-- ===== src/Gateway/Server/Fenced.antt =====
-- src/gateway/server.rs: only a node with a valid lease serves writes.
use Prim.Native.Char.{Char}
use rsqlite_rsync.Base.{
  ℕ, ◌≡◌, refl, ap, ◌∙◌, ◌⊎◌, inl, inr, List, Option, some, Bool, false, Bool-cases,
}
use rsqlite_rsync.Ha.Lease.{LeaseRecord, writer}
use rsqlite_rsync.Ha.Fence.Rules.{MayWrite}
use rsqlite_rsync.Ha.Runtime.{HaSharedState, is_writer}
use rsqlite_rsync.Ha.Runtime.Observation.{is_writer_iff}
use rsqlite_rsync.Gateway.Status.{Tonic}
use rsqlite_rsync.Gateway.Values.{Statement}
use rsqlite_rsync.Gateway.Host.{Host}
use rsqlite_rsync.Gateway.Server.{
  ConsistencyLevel, strong, eventual, consistency_of, Reply, rejected, SqlGatewayServer,
  QueryRequest, not_leader_status, check_write_access, check_read_access, Served, checked,
  serve_execute, execute_with, batch_with, drop_with, query_with, stream_with, serve_query,
  serve_stream_query, serve_batch, serve_drop_database,
}

-- The role of the node is writer, and it has a lease that is its own, of its generation, and not
-- expired.
abbrev pub HoldsWriterLease : HaSharedState → ℕ → Type 0
HoldsWriterLease s now =
    (s.role ≡ writer)
    × ((l : LeaseRecord) × (s.lease_record ≡ some l) × MayWrite now s.node_id s.generation l)

module _ (t : Tonic) (h : Host) (server : SqlGatewayServer) (now : ℕ) (elapsed : ℕ → ℕ)
    (w : h.World) where
  -- The request is refused, with the leader's address, and nothing has happened.
  abbrev pub Refused : {A : Type 0} → Served t h A → Type 0
  Refused served = served ≡ (server, w, rejected (not_leader_status t h server.ha_state))

  refuse :
      {A B : Type 0} (f : A → Served t h B) (r : Reply t.Value A)
      → r ≡ rejected (not_leader_status t h server.ha_state)
      → Refused (checked t h server now elapsed w r f)
  refuse {A} {B} f r e = ap (λ (x : Reply t.Value A). checked t h server now elapsed w x f) e

  write_refused :
      is_writer server.ha_state now ≡ false
      → check_write_access t h server.ha_state now
        ≡ rejected (not_leader_status t h server.ha_state)
  unfolding check_write_access
  write_refused e = rw e refl

  strong_refused :
      is_writer server.ha_state now ≡ false
      → check_read_access t h server.ha_state strong now
        ≡ rejected (not_leader_status t h server.ha_state)
  unfolding check_read_access
  strong_refused e = rw e refl

  read_refused :
      (level : ConsistencyLevel)
      → is_writer server.ha_state now ≡ false
      → server.ha_state.allow_replica_reads ≡ false
      → check_read_access t h server.ha_state level now
        ≡ rejected (not_leader_status t h server.ha_state)
  unfolding check_read_access
  read_refused strong e e' = rw e refl
  read_refused eventual e e' = rw (e, e') refl

  -- At any time, the node is the writer with a valid lease of its own; or it refuses every execution,
  -- batch and deletion, every query and streamed query that asks for strong consistency, and, unless
  -- it allows reads from a replica, every other query too: the reply is the status that names the
  -- leader, no lock is made, and nothing is done to a database.
  pub writes_fenced :
      (database : List Char) (statement : Option Statement) (statements : List Statement) (mode : ℕ)
      (stop : Bool) (req : QueryRequest)
      → HoldsWriterLease server.ha_state now
        ⊎ (Refused (serve_execute t h server now elapsed w database statement)
            × Refused (serve_batch t h server now elapsed w database statements mode stop)
            × Refused (serve_drop_database t h server now elapsed w database)
            × ((consistency_of req.consistency ≡ strong)
                  ⊎ (server.ha_state.allow_replica_reads ≡ false)
                → Refused (serve_query t h server now elapsed w req)
                  × Refused (serve_stream_query t h server now elapsed w req)))
  unfolding serve_execute serve_batch serve_drop_database serve_query serve_stream_query
  writes_fenced database statement statements mode stop req =
      elim (Bool-cases (is_writer server.ha_state now)) [
        | inl holds ↦ inl ((is_writer_iff server.ha_state now).0 holds)
        | inr e ↦
            let no = write_refused e in
            inr (
              refuse (execute_with t h server now elapsed w database statement) _ no,
              refuse (batch_with t h server now elapsed w database statements mode stop) _ no,
              refuse (drop_with t h server now elapsed w database) _ no,
              λ o. (
                refuse (query_with t h server now elapsed w req req.statement) _ (reads e o),
                refuse (stream_with t h server now elapsed w req req.statement) _ (reads e o),
              ),
            )
      ]
    where
      reads :
          is_writer server.ha_state now ≡ false
          → (consistency_of req.consistency ≡ strong)
            ⊎ (server.ha_state.allow_replica_reads ≡ false)
          → check_read_access t h server.ha_state (consistency_of req.consistency) now
            ≡ rejected (not_leader_status t h server.ha_state)
      reads e (inl s) =
          ap (λ (l : ConsistencyLevel). check_read_access t h server.ha_state l now) s
          ∙ strong_refused e
      reads e (inr s) = read_refused (consistency_of req.consistency) e s
