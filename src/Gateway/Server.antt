-- ===== src/Gateway/Server.antt =====
-- src/gateway/server.rs: `SqlGatewayServer`, the checks of access and the handlers. A task that panics
-- is an internal error. The databases of a cluster status are an argument.
pub mod Fenced
use Prim.Native.Char.{Char}
use text.Mathlib.Text.{◌==◌ as str_eq}
use rsqlite_rsync.Base.{
  ℕ, zero, suc, String, List, [], ◌∷◌, map, Option, none, some, Bool, true, false, not, ltb,
  if◌then◌else◌,
}
use rsqlite_rsync.Error.{SyncError, Result, ok, err, panic}
use rsqlite_rsync.KvText.Chars.{chars, display}
use rsqlite_rsync.Ha.Lease.{LeaseRecord, is_expired}
use rsqlite_rsync.Ha.Runtime.{HaSharedState, is_writer}
use rsqlite_rsync.Gateway.Status.{
  Tonic, Code, invalid_argument, failed_precondition, internal, Status, status, says, shows, put,
  header_code, header_leader_id, header_generation, header_leader_endpoint, code_not_leader,
}
use rsqlite_rsync.Gateway.Values.{Statement}
use rsqlite_rsync.Gateway.Host.{Host}
use rsqlite_rsync.Gateway.Paths.{DatabaseEngine}
use rsqlite_rsync.Gateway.Engine.Binding.{Locks, ExecuteResponse, execute}
use rsqlite_rsync.Gateway.Engine.Query.{QueryResponse, QueryChunk, query, stream_query_chunks}
use rsqlite_rsync.Gateway.Engine.Batch.{
  BatchTransactionMode, no_transaction, deferred, immediate, exclusive, BatchResponse, batch,
}
use rsqlite_rsync.Gateway.Engine.Drop.{drop_database}

pub data ConsistencyLevel : Type 0 where
  strong eventual : ConsistencyLevel

-- `try_from(..).unwrap_or(..)` of the numbers on the wire.
unfoldable pub consistency_of : ℕ → ConsistencyLevel
consistency_of zero = strong
consistency_of (suc zero) = eventual
consistency_of (suc (suc n)) = strong

unfoldable pub transaction_mode_of : ℕ → BatchTransactionMode
transaction_mode_of zero = no_transaction
transaction_mode_of (suc zero) = deferred
transaction_mode_of (suc (suc zero)) = immediate
transaction_mode_of (suc (suc (suc zero))) = exclusive
transaction_mode_of (suc (suc (suc (suc n)))) = deferred

-- `Result<_, Status>`.
pub data Reply (V A : Type 0) : Type 0 where
  replied : A → Reply V A
  rejected : Status V → Reply V A

-- What follows a check.
abbrev pub once : {V A B : Type 0} → Reply V A → (A → Reply V B) → Reply V B
once (replied a) f = f a
once (rejected s) f = rejected s

-- The result of the blocking task.
abbrev pub task_reply : {V A : Type 0} → Result A → Reply V A
task_reply (ok a) = replied a
task_reply (err e) = rejected (status internal (shows e))
task_reply panic = rejected (status internal (says "task join error: {e}"))

-- The version of the package.
abbrev pub server_version : String
server_version = "0.4.0"

pub record SqlGatewayServer : Type 0 where
  pub engine : DatabaseEngine
  pub ha_state : HaSharedState
  pub locks : Locks

pub record QueryRequest : Type 0 where
  pub database : List Char
  pub statement : Option Statement
  pub max_rows : ℕ
  pub chunk_size : ℕ
  pub consistency : ℕ

pub record LeaseStatus : Type 0 where
  pub is_held : Bool
  pub holder_node_id : String
  pub generation : ℕ
  pub renewed_at_secs : ℕ
  pub ttl_secs : ℕ
  pub is_expired : Bool

pub record ClusterStatusResponse (D : Type 0) : Type 0 where
  pub node_id : String
  pub role : ℕ
  pub local_generation : ℕ
  pub lease : Option LeaseStatus
  pub current_leader_id : String
  pub current_leader_endpoint : String
  pub databases : List D
  pub uptime_secs : ℕ
  pub version : String

module _ (t : Tonic) (h : Host) where
  open t use {Value, parse}
  open h use {World}

  abbrev pub insert_parsed : String → Option Value → List (String × Value) → List (String × Value)
  insert_parsed key none m = m
  insert_parsed key (some v) m = put key v m

  abbrev pub insert_known : String → Option String → List (String × Value) → List (String × Value)
  insert_known key none m = m
  insert_known key (some s) m = insert_parsed key (parse (chars s)) m

  unfoldable pub not_leader_status : HaSharedState → Status Value
  unfolding chars display
  not_leader_status state = record {
    code = failed_precondition;
    message = says "node is not the active writer";
    metadata = insert_known header_leader_endpoint state.active_leader_endpoint (
        insert_parsed header_generation (parse (display state.generation)) (
          insert_known header_leader_id state.active_leader_id
            (insert_parsed header_code (parse code_not_leader) [])));
  }

  unfoldable pub check_write_access : HaSharedState → ℕ → Reply Value ℕ
  unfolding is_writer not_leader_status
  check_write_access state now =
      if not (is_writer state now)
      then rejected (not_leader_status state)
      else replied state.generation

  abbrev pub read_access : HaSharedState → ConsistencyLevel → Bool → Reply Value (ℕ × Bool)
  read_access state strong writes =
      if not writes then rejected (not_leader_status state) else replied (state.generation, false)
  read_access state eventual writes =
      if writes
      then replied (state.generation, false)
      else if state.allow_replica_reads
      then replied (state.generation, true)
      else rejected (not_leader_status state)

  unfoldable pub check_read_access : HaSharedState → ConsistencyLevel → ℕ → Reply Value (ℕ × Bool)
  unfolding is_writer not_leader_status
  check_read_access state consistency now = read_access state consistency (is_writer state now)

  -- A handler's outcome: the server, the state of the host, and the reply.
  abbrev pub Served : Type 0 → Type 0
  Served A = SqlGatewayServer × World × Reply Value A

  -- The engine's answer, with the locks after it.
  abbrev pub answered : {A : Type 0} → SqlGatewayServer → Locks × (World × Result A) → Served A
  answered server (locks, (w, r)) = (record server { locks = locks }, w, task_reply r)

  abbrev pub missing_statement : {A : Type 0} → String → Reply Value A
  missing_statement s = rejected (status invalid_argument (says s))

  module _ (server : SqlGatewayServer) (now : ℕ) (elapsed : ℕ → ℕ) (w : World) where
    -- What a handler does with a check: its refusal, or the rest.
    abbrev pub checked : {A B : Type 0} → Reply Value A → (A → Served B) → Served B
    checked (rejected s) f = (server, w, rejected s)
    checked (replied a) f = f a

    abbrev pub execute_with : List Char → Option Statement → ℕ → Served ExecuteResponse
    execute_with database none generation =
        (server, w, missing_statement "missing statement in execute request")
    execute_with database (some stmt) generation =
        answered server
          (execute h server.engine database stmt generation (elapsed 0) server.locks w)

    unfoldable pub serve_execute : List Char → Option Statement → Served ExecuteResponse
    unfolding check_write_access execute
    serve_execute database statement =
        checked (check_write_access server.ha_state now) (execute_with database statement)

    abbrev pub query_with : QueryRequest → Option Statement → ℕ × Bool → Served QueryResponse
    query_with req none access = (server, w, missing_statement "missing statement in query request")
    query_with req (some stmt) (generation, is_replica) = answered server (
      server.locks,
      query h server.engine req.database stmt req.max_rows generation is_replica (elapsed 0) w,
    )

    unfoldable pub serve_query : QueryRequest → Served QueryResponse
    unfolding check_read_access consistency_of query
    serve_query req =
        checked (check_read_access server.ha_state (consistency_of req.consistency) now)
          (query_with req req.statement)

    abbrev pub stream_with : QueryRequest → Option Statement → ℕ × Bool → Served (List QueryChunk)
    stream_with req none access =
        (server, w, missing_statement "missing statement in stream query request")
    stream_with req (some stmt) access = answered server (
      server.locks,
      stream_query_chunks h server.engine req.database stmt req.max_rows
          (if ltb 0 req.chunk_size then req.chunk_size else 100) elapsed w,
    )

    -- The chunks that are sent.
    unfoldable pub serve_stream_query : QueryRequest → Served (List QueryChunk)
    unfolding check_read_access consistency_of stream_query_chunks
    serve_stream_query req =
        checked (check_read_access server.ha_state (consistency_of req.consistency) now)
          (stream_with req req.statement)

    abbrev pub batch_with : List Char → List Statement → ℕ → Bool → ℕ → Served BatchResponse
    batch_with database statements transaction_mode stop_on_error generation = answered server (
        batch h generation elapsed server.engine database statements
          (transaction_mode_of transaction_mode) stop_on_error server.locks w)

    unfoldable pub serve_batch : List Char → List Statement → ℕ → Bool → Served BatchResponse
    unfolding check_write_access transaction_mode_of batch
    serve_batch database statements transaction_mode stop_on_error =
        checked (check_write_access server.ha_state now)
          (batch_with database statements transaction_mode stop_on_error)

    abbrev pub with_generation : {A : Type 0} → ℕ → Served A → Served (A × ℕ)
    with_generation generation (s, v, replied a) = (s, v, replied (a, generation))
    with_generation generation (s, v, rejected x) = (s, v, rejected x)

    -- The reply has whether the file existed, and the generation.
    abbrev pub drop_with : List Char → ℕ → Served (Bool × ℕ)
    drop_with database generation =
        with_generation generation
          (answered server (drop_database h server.engine database server.locks w))

    unfoldable pub serve_drop_database : List Char → Served (Bool × ℕ)
    unfolding check_write_access drop_database
    serve_drop_database database =
        checked (check_write_access server.ha_state now) (drop_with database)

    abbrev lease_status : Option LeaseRecord → Option LeaseStatus
    lease_status none = none
    lease_status (some l) = some (record {
      is_held = true;
      holder_node_id = l.holder_node_id;
      generation = l.generation;
      renewed_at_secs = l.renewed_at_secs;
      ttl_secs = l.ttl_secs;
      is_expired = is_expired l now;
    })

    abbrev text_or_empty : Option String → String
    text_or_empty none = ""
    text_or_empty (some s) = s

    abbrev listed : {D : Type 0} → Result (List D) → List D
    listed (ok ds) = ds
    listed (err e) = []
    listed panic = []

    abbrev cluster_status : {D : Type 0} → List D → ClusterStatusResponse D
    cluster_status databases =
        let state = server.ha_state in
        record {
          node_id = state.node_id;
          role = if is_writer state now then 1 else 2;
          local_generation = state.generation;
          lease = lease_status state.lease_record;
          current_leader_id = text_or_empty state.active_leader_id;
          current_leader_endpoint = text_or_empty state.active_leader_endpoint;
          databases = databases;
          uptime_secs = elapsed 0;
          version = server_version;
        }

    -- On the outcome of listing the databases; only a panic of that task is an error.
    unfoldable pub get_cluster_status :
        {D : Type 0} → Result (List D) → Reply Value (ClusterStatusResponse D)
    unfolding is_writer is_expired
    get_cluster_status (ok ds) = replied (cluster_status ds)
    get_cluster_status (err e) = replied (cluster_status [])
    get_cluster_status panic = rejected (status internal (says "task join error: {e}"))
