-- ===== src/Client/Retry/Next.antt =====
-- crates/rsqlite-rsync-client/src/client.rs: where an attempt of the loop sends its call.
use Prim.Native.Char.{Char}
use rsqlite_rsync.Base.{
  ℕ, ◌≡◌, refl, List, [], ◌∷◌, none, some, Bool, true, false, leb, if◌then◌else◌,
}
use rsqlite_rsync.Gateway.Status.{Tonic}
use rsqlite_rsync.Gateway.Server.{Reply, replied, rejected}
use rsqlite_rsync.Client.Discovery.{
  ClientConfig, ClientError, ClientResult, success, failure, Net, discover_leader, invalid_endpoint,
  connect_failed,
}
use rsqlite_rsync.Client.Retry.{
  SqlGatewayClient, Turn, ends, retries, should_retry, after_call, is_invalid, after_connect,
  connect_to, get_or_connect, turn,
}

module _ (t : Tonic) {A : Type 0} (config : ClientConfig) (nets : ℕ → Net t.Value)
    (op : ℕ → List Char → Reply t.Value A) (idempotent : Bool) where
  -- The calls that an attempt makes.
  abbrev pub calls_of : Turn t config nets op idempotent → List (List Char × Reply t.Value A)
  calls_of (ends r c calls) = calls
  calls_of (retries c calls) = calls

  -- An attempt that is meant for an endpoint makes its one call there, if the endpoint is valid and can be
  -- connected to, and else none.
  abbrev pub Reaches : ℕ → List Char → Turn t config nets op idempotent → Type 0
  Reaches n ep attempt =
      (t.valid_endpoint ep ≡ true
        → (nets n).connects ep ≡ true
        → calls_of attempt ≡ (ep, op n ep) ∷ [])
      × (t.valid_endpoint ep ≡ false → calls_of attempt ≡ [])
      × ((nets n).connects ep ≡ false → calls_of attempt ≡ [])

  calls_if :
      (b : Bool) (x y : Turn t config nets op idempotent) (l : List (List Char × Reply t.Value A))
      → calls_of x ≡ l
      → calls_of y ≡ l
      → calls_of (if b then x else y) ≡ l
  calls_if true x y l p q = p
  calls_if false x y l p q = q

  called :
      (n : ℕ) (c : SqlGatewayClient) (ep : List Char) (r : Reply t.Value A)
      → calls_of (after_call t config nets op idempotent n c ep r) ≡ (ep, r) ∷ []
  called n c ep (replied a) = refl
  called n c ep (rejected st) =
      calls_if (should_retry t config nets op idempotent st) _ _ _
        (calls_if (leb config.max_retries n) _ _ _ refl refl) refl

  no_call :
      (n : ℕ) (c : SqlGatewayClient) (e : ClientError t.Value)
      → calls_of (after_connect t config nets op idempotent n (c, failure e)) ≡ []
  no_call n c e =
      calls_if (is_invalid t config nets op idempotent e) _ _ _ refl
        (calls_if (leb config.max_retries n) _ _ _ refl refl)

  -- An attempt on the endpoint that was chosen.
  connecting-Reaches :
      (n : ℕ) (c : SqlGatewayClient) (ep : List Char)
      → Reaches n ep (
          after_connect t config nets op idempotent n (connect_to t config (nets n) c (success ep)))
  connecting-Reaches n c ep = by_tests (t.valid_endpoint ep) ((nets n).connects ep)
    where
      opened : Bool → Bool → Turn t config nets op idempotent
      opened valid connects = after_connect t config nets op idempotent n (
          if valid
          then (if connects
              then (record { current_endpoint = some ep; tonic_client = some ep }, success ep)
              else (c, failure (connect_failed ep)))
          else (c, failure (invalid_endpoint ep)))

      by_tests :
          (valid connects : Bool)
          → (valid ≡ true → connects ≡ true → calls_of (opened valid connects) ≡ (ep, op n ep) ∷ [])
            × (valid ≡ false → calls_of (opened valid connects) ≡ [])
            × (connects ≡ false → calls_of (opened valid connects) ≡ [])
      by_tests true true = (
        λ v w.
            called n (record { current_endpoint = some ep; tonic_client = some ep }) ep (op n ep),
        λ v. cc v,
        λ w. cc w,
      )
      by_tests true false = (λ v w. cc w, λ v. cc v, λ w. no_call n c (connect_failed ep))
      by_tests false w = (
        λ v w. cc v,
        λ v. no_call n c (invalid_endpoint ep),
        λ w. no_call n c (invalid_endpoint ep),
      )

  -- The attempt of a client that has an endpoint and no connection, and of one that has neither.
  pub turn-Reaches :
      (n : ℕ) (ep : List Char)
      → Reaches n ep (
          turn t config nets op idempotent n
            (record { current_endpoint = some ep; tonic_client = none }))
  unfolding turn get_or_connect
  turn-Reaches n ep =
      connecting-Reaches n (record { current_endpoint = some ep; tonic_client = none }) ep

  abbrev pub Searches :
      ℕ → ClientResult t.Value (List Char) → Turn t config nets op idempotent → Type 0
  Searches n (success leader) attempt = Reaches n leader attempt
  Searches n (failure e) attempt = calls_of attempt ≡ []

  pub turn-Searches :
      (n : ℕ)
      → Searches n (discover_leader t (nets n) config.auth_token config.discovery) (
          turn t config nets op idempotent n
            (record { current_endpoint = none; tonic_client = none }))
  unfolding turn get_or_connect
  turn-Searches n = found (discover_leader t (nets n) config.auth_token config.discovery)
    where
      found :
          (r : ClientResult t.Value (List Char))
          → Searches n r (
              after_connect t config nets op idempotent n (
                connect_to t config
                  (nets n)
                  (record { current_endpoint = none; tonic_client = none })
                  r))
      found (success leader) =
          connecting-Reaches n (record { current_endpoint = none; tonic_client = none }) leader
      found (failure e) = no_call n (record { current_endpoint = none; tonic_client = none }) e
