-- ===== src/Client/Discovery.antt =====
-- crates/rsqlite-rsync-client/src/discovery.rs and config.rs: which node the client calls. What the
-- network answers at a moment is a parameter.
use Prim.Native.Char.{Char}
use rsqlite_rsync.Base.{
  ℕ, String, List, [], ◌∷◌, ◌++◌, Option, none, some, Bool, true, false, ◌||◌, ◌==◌, if◌then◌else◌,
}
use rsqlite_rsync.KvText.Chars.{chars, strip_prefix}
use rsqlite_rsync.KvText.{trim}
use rsqlite_rsync.Gateway.Status.{Tonic, Status}

abbrev pub is_some : {A : Type 0} → Option A → Bool
is_some none = false
is_some (some a) = true

-- `starts_with` is a prefix that can be stripped.
unfoldable pub normalize_endpoint : List Char → List Char
unfolding strip_prefix chars
normalize_endpoint ep =
    let trimmed = trim ep in
    if is_some (strip_prefix (chars "http://") trimmed)
      || is_some (strip_prefix (chars "https://") trimmed)
    then trimmed
    else chars "http://" ++ trimmed

pub data DiscoveryMode : Type 0 where
  direct : List Char → DiscoveryMode
  candidates : List (List Char) → DiscoveryMode
  custom : DiscoveryMode

pub record ClientConfig : Type 0 where
  pub discovery : DiscoveryMode
  pub max_retries : ℕ
  pub initial_backoff_ms : ℕ
  pub max_backoff_ms : ℕ
  pub auth_token : Option (List Char)

pub data ClientError (V : Type 0) : Type 0 where
  invalid_endpoint : List Char → ClientError V
  connect_failed : List Char → ClientError V
  discovery_failed : String → ClientError V
  rpc : Status V → ClientError V
  retries_exhausted : ℕ → ClientError V → ClientError V

pub data ClientResult (V A : Type 0) : Type 0 where
  success : A → ClientResult V A
  failure : ClientError V → ClientResult V A

-- The network at one moment: the role that a node reports, if it can be reached and answers; what the
-- custom resolver gives; and which endpoints can be connected to.
pub record Net (V : Type 0) : Type 0 where
  pub probe : List Char → Option V → Option ℕ
  pub resolve : Option (List Char)
  pub connects : List Char → Bool

module _ (t : Tonic) where
  open t use {Value, parse, valid_endpoint}

  -- The value of the header of `authorized_request`.
  unfoldable pub authorization : Option (List Char) → Option Value
  unfolding chars
  authorization none = none
  authorization (some token) = parse (chars "Bearer " ++ token)

  abbrev pub reports_writer : Option ℕ → Bool
  reports_writer none = false
  reports_writer (some role) = role == 1

  module _ (net : Net Value) (auth_token : Option (List Char)) where
    -- A candidate that is valid, reachable and the writer.
    abbrev pub is_the_writer : List Char → Bool
    is_the_writer norm =
        if valid_endpoint norm
        then reports_writer (net.probe norm (authorization auth_token))
        else false

    -- The loop over the candidates.
    unfoldable pub find_writer : List (List Char) → Option (List Char)
    unfolding normalize_endpoint authorization
    find_writer [] = none
    find_writer (c ∷ cs) =
        let later = find_writer cs in
        if is_the_writer (normalize_endpoint c) then some (normalize_endpoint c) else later

    -- The first valid candidate.
    unfoldable pub first_valid : List (List Char) → Option (List Char)
    unfolding normalize_endpoint
    first_valid [] = none
    first_valid (c ∷ cs) =
        let later = first_valid cs in
        if valid_endpoint (normalize_endpoint c) then some (normalize_endpoint c) else later

    abbrev pub or_error : Option (List Char) → String → ClientResult Value (List Char)
    or_error none message = failure (discovery_failed message)
    or_error (some ep) message = success ep

    abbrev pub or_fall_back : Option (List Char) → List (List Char) → ClientResult Value (List Char)
    or_fall_back (some ep) cs = success ep
    or_fall_back none cs =
        or_error (first_valid cs) "no syntactically valid candidates configured for discovery"

    abbrev pub resolved : Option (List Char) → ClientResult Value (List Char)
    resolved none = failure (discovery_failed "custom resolver failed")
    resolved (some ep) = success (normalize_endpoint ep)

    unfoldable pub discover_leader : DiscoveryMode → ClientResult Value (List Char)
    unfolding normalize_endpoint find_writer first_valid
    discover_leader (direct ep) = success (normalize_endpoint ep)
    discover_leader (candidates cs) = or_fall_back (find_writer cs) cs
    discover_leader custom = resolved net.resolve
