-- ===== src/Client/Retry.antt =====
-- crates/rsqlite-rsync-client/src/client.rs and error.rs: `SqlGatewayClient`, its connection and the
-- loop of attempts around a call. The network and the answers of the attempts are parameters.
pub mod Attempts
pub mod Termination
pub mod Repeats
pub mod Next
pub mod Redirect
use Prim.Native.Char.{Char}
use rsqlite_rsync.Base.{
  ℕ, zero, suc, ◌*◌, String, List, [], ◌∷◌, ◌++◌, Option, none, some, Bool, true, false, ◌&&◌, ◌||◌,
  min, max, leb, if◌then◌else◌,
}
use rsqlite_rsync.Gateway.Status.{
  Tonic, Code, invalid_argument, unauthenticated, failed_precondition, internal, unavailable,
  deadline_exceeded, other_code, Status, get, header_code, header_leader_endpoint, code_not_leader,
}
use rsqlite_rsync.Gateway.Server.{Reply, replied, rejected}
use rsqlite_rsync.Client.Discovery.{
  normalize_endpoint, ClientConfig, ClientError, invalid_endpoint, connect_failed, discovery_failed,
  rpc, retries_exhausted, ClientResult, success, failure, Net, discover_leader,
}

-- The fields that calls change. A channel is known by its endpoint.
pub record SqlGatewayClient : Type 0 where
  pub current_endpoint : Option (List Char)
  pub tonic_client : Option (List Char)

unfoldable pub new_client : SqlGatewayClient
new_client = record { current_endpoint = none; tonic_client = none }

unfoldable pub reset_connection : SqlGatewayClient → SqlGatewayClient
reset_connection c = record c { tonic_client = none; current_endpoint = none }

-- `current_ms.saturating_mul(2).min(max_ms)`.
unfoldable pub next_backoff : ℕ → ℕ → ℕ
next_backoff current_ms max_ms = min (min (current_ms * 2) 18446744073709551615) max_ms

abbrev pub is_failed_precondition : Code → Bool
is_failed_precondition failed_precondition = true
is_failed_precondition invalid_argument = false
is_failed_precondition unauthenticated = false
is_failed_precondition internal = false
is_failed_precondition unavailable = false
is_failed_precondition deadline_exceeded = false
is_failed_precondition (other_code n) = false

-- `Unavailable | DeadlineExceeded`.
abbrev pub is_transient : Code → Bool
is_transient unavailable = true
is_transient deadline_exceeded = true
is_transient failed_precondition = false
is_transient invalid_argument = false
is_transient unauthenticated = false
is_transient internal = false
is_transient (other_code n) = false

module _ (t : Tonic) where
  open t use {Value, to_str, is_text, valid_endpoint}

  abbrev pub has_text : Option Value → List Char → Bool
  has_text none s = false
  has_text (some v) s = is_text v s

  unfoldable pub is_not_leader_status : Status Value → Bool
  is_not_leader_status st =
      is_failed_precondition st.code && has_text (get st.metadata header_code) code_not_leader

  -- `status`, `code`, `is_not_leader` and `is_retryable` of an error.
  unfoldable pub status_of : ClientError Value → Option (Status Value)
  status_of (rpc st) = some st
  status_of (retries_exhausted n e) = status_of e
  status_of (invalid_endpoint ep) = none
  status_of (connect_failed ep) = none
  status_of (discovery_failed m) = none

  abbrev not_leader_of : Option (Status Value) → Bool
  not_leader_of none = false
  not_leader_of (some st) = is_not_leader_status st

  abbrev transient_of : Option (Status Value) → Bool
  transient_of none = false
  transient_of (some st) = is_transient st.code

  unfoldable pub is_not_leader : ClientError Value → Bool
  unfolding status_of is_not_leader_status
  is_not_leader e = not_leader_of (status_of e)

  unfoldable pub is_retryable : ClientError Value → Bool
  unfolding is_not_leader
  is_retryable e = is_not_leader e || transient_of (status_of e)

  abbrev pub readable : Option Value → Option (List Char)
  readable none = none
  readable (some v) = to_str v

  abbrev pub redirect : SqlGatewayClient → Option (List Char) → SqlGatewayClient
  redirect c none = reset_connection c
  redirect c (some []) = reset_connection c
  redirect c (some (x ∷ ep)) = record c {
    current_endpoint = some (normalize_endpoint (x ∷ ep));
    tonic_client = none;
  }

  unfoldable pub process_leader_header : SqlGatewayClient → Status Value → SqlGatewayClient
  unfolding reset_connection normalize_endpoint
  process_leader_header c st = redirect c (readable (get st.metadata header_leader_endpoint))

  module _ (config : ClientConfig) (net : Net Value) where
    -- On the endpoint that was chosen.
    abbrev pub connect_to :
        SqlGatewayClient
        → ClientResult Value (List Char)
        → SqlGatewayClient × ClientResult Value (List Char)
    connect_to c (failure e) = (c, failure e)
    connect_to c (success ep) =
        if valid_endpoint ep
        then (if net.connects ep
            then (record { current_endpoint = some ep; tonic_client = some ep }, success ep)
            else (c, failure (connect_failed ep)))
        else (c, failure (invalid_endpoint ep))

    abbrev pub chosen : Option (List Char) → ClientResult Value (List Char)
    chosen (some ep) = success ep
    chosen none = discover_leader t net config.auth_token config.discovery

    abbrev pub connect_unless :
        SqlGatewayClient → Option (List Char) → SqlGatewayClient × ClientResult Value (List Char)
    connect_unless c (some ep) = (c, success ep)
    connect_unless c none = connect_to c (chosen c.current_endpoint)

    unfoldable pub get_or_connect :
        SqlGatewayClient → SqlGatewayClient × ClientResult Value (List Char)
    unfolding discover_leader
    get_or_connect c = connect_unless c c.tonic_client

  -- The network at each attempt, and the answer of each endpoint at each attempt.
  module _ {A : Type 0} (config : ClientConfig) (nets : ℕ → Net Value)
      (op : ℕ → List Char → Reply Value A) (idempotent : Bool) where
    -- What one attempt leads to: the end, or a pause and the next attempt; with the calls that it made.
    pub data Turn : Type 0 where
      ends : ClientResult Value A → SqlGatewayClient → List (List Char × Reply Value A) → Turn
      retries : SqlGatewayClient → List (List Char × Reply Value A) → Turn

    abbrev pub should_retry : Status Value → Bool
    should_retry st = is_not_leader_status st || (idempotent && is_transient st.code)

    abbrev pub after_call : ℕ → SqlGatewayClient → List Char → Reply Value A → Turn
    after_call attempts c ep (replied a) = ends (success a) c ((ep, replied a) ∷ [])
    after_call attempts c ep (rejected st) =
        if should_retry st
        then (if leb config.max_retries attempts
            then ends (failure (retries_exhausted attempts (rpc st))) c ((ep, rejected st) ∷ [])
            else retries (process_leader_header c st) ((ep, rejected st) ∷ []))
        else ends (failure (rpc st)) c ((ep, rejected st) ∷ [])

    abbrev pub is_invalid : ClientError Value → Bool
    is_invalid (invalid_endpoint ep) = true
    is_invalid (connect_failed ep) = false
    is_invalid (discovery_failed m) = false
    is_invalid (rpc st) = false
    is_invalid (retries_exhausted n e) = false

    abbrev pub after_connect : ℕ → SqlGatewayClient × ClientResult Value (List Char) → Turn
    after_connect attempts (c, success ep) = after_call attempts c ep (op attempts ep)
    after_connect attempts (c, failure e) =
        if is_invalid e
        then ends (failure e) c []
        else if leb config.max_retries attempts
        then ends (failure (retries_exhausted attempts e)) c []
        else retries (reset_connection c) []

    unfoldable pub turn : ℕ → SqlGatewayClient → Turn
    unfolding get_or_connect process_leader_header is_not_leader_status reset_connection
    turn attempts c = after_connect attempts (get_or_connect config (nets attempts) c)

    -- What the loop leaves: the result, the client, the calls that were made and the pauses.
    pub record Outcome : Type 0 where
      pub result : ClientResult Value A
      pub client : SqlGatewayClient
      pub calls : List (List Char × Reply Value A)
      pub pauses : List ℕ

    abbrev pub preceded : List (List Char × Reply Value A) → ℕ → Option Outcome → Option Outcome
    preceded calls backoff none = none
    preceded calls backoff (some o) =
        some (record o { calls = calls ++ o.calls; pauses = backoff ∷ o.pauses })

    abbrev pub after_turn : ℕ → Turn → (SqlGatewayClient → Option Outcome) → Option Outcome
    after_turn backoff (ends r c calls) next =
        some (record { result = r; client = c; calls = calls; pauses = [] })
    after_turn backoff (retries c calls) next = preceded calls backoff (next c)

    -- The loop on fuel, at the attempt with the given number.
    unfoldable pub attempts_loop : ℕ → ℕ → ℕ → SqlGatewayClient → Option Outcome
    unfolding turn next_backoff
    attempts_loop zero attempts backoff_ms c = none
    attempts_loop (suc fuel) attempts backoff_ms c =
        after_turn backoff_ms (turn attempts c)
          (attempts_loop fuel (suc attempts) (next_backoff backoff_ms config.max_backoff_ms))

    -- As many rounds as there may be attempts; there is always one.
    unfoldable pub retry_loop : SqlGatewayClient → Option Outcome
    unfolding attempts_loop
    retry_loop c = attempts_loop (max config.max_retries 1) 1 config.initial_backoff_ms c
