-- ===== src/Client/Retry/Attempts.antt =====
-- crates/rsqlite-rsync-client/src/client.rs: what one attempt leads to, case by case.
use Prim.Native.Char.{Char}
use rsqlite_rsync.Base.{ℕ, ◌≡◌, refl, List, [], ◌∷◌, Bool, true, false, leb, if◌then◌else◌}
use rsqlite_rsync.Gateway.Status.{Tonic, Status}
use rsqlite_rsync.Gateway.Server.{Reply, replied, rejected}
use rsqlite_rsync.Client.Discovery.{
  ClientConfig, ClientError, ClientResult, success, failure, Net, rpc, retries_exhausted,
}
use rsqlite_rsync.Client.Retry.{
  SqlGatewayClient, process_leader_header, reset_connection, Turn, ends, retries, should_retry,
  after_call, is_invalid, after_connect,
}

module _ (t : Tonic) {A : Type 0} (config : ClientConfig) (nets : ℕ → Net t.Value)
    (op : ℕ → List Char → Reply t.Value A) (idempotent : Bool) where
  open t use {Value}

  abbrev pub Call : Type 0
  Call = List Char × Reply Value A

  abbrev pub IsEnd : Turn t config nets op idempotent → Type 0
  IsEnd (ends r c calls) = Unit
  IsEnd (retries c calls) = ⊥

  abbrev pub calls_of : Turn t config nets op idempotent → List Call
  calls_of (ends r c calls) = calls
  calls_of (retries c calls) = calls

  -- What holds on both branches of a test.
  pub if_cases {κ} :
      (P : Turn t config nets op idempotent → Type κ) (b : Bool)
      (x y : Turn t config nets op idempotent)
      → (b ≡ true → P x)
      → (b ≡ false → P y)
      → P (if b then x else y)
  if_cases P true x y p q = p refl
  if_cases P false x y p q = q refl

  -- What holds of an attempt, by what it leads to.
  module _ {κ} (P : Turn t config nets op idempotent → Type κ) (attempts : ℕ)
      (on_invalid : (c : SqlGatewayClient) (e : ClientError Value) → P (ends (failure e) c []))
      (on_no_connection : (c : SqlGatewayClient) (e : ClientError Value)
        → P (ends (failure (retries_exhausted attempts e)) c []))
      (on_reset : (c : SqlGatewayClient)
        → leb config.max_retries attempts ≡ false
        → P (retries c []))
      (on_reply : (c : SqlGatewayClient) (ep : List Char) (a : A)
        → P (ends (success a) c ((ep, replied a) ∷ [])))
      (on_refusal : (c : SqlGatewayClient) (ep : List Char) (st : Status Value)
          (e : ClientError Value)
        → P (ends (failure e) c ((ep, rejected st) ∷ [])))
      (on_retry : (c : SqlGatewayClient) (ep : List Char) (st : Status Value)
        → should_retry t config nets op idempotent st ≡ true
        → leb config.max_retries attempts ≡ false
        → P (retries c ((ep, rejected st) ∷ []))) where
    pub call_cases :
        (c : SqlGatewayClient) (ep : List Char) (r : Reply Value A)
        → P (after_call t config nets op idempotent attempts c ep r)
    call_cases c ep (replied a) = on_reply c ep a
    call_cases c ep (rejected st) =
        if_cases P (should_retry t config nets op idempotent st)
          (if leb config.max_retries attempts
            then ends (failure (retries_exhausted attempts (rpc st))) c ((ep, rejected st) ∷ [])
            else retries (process_leader_header t c st) ((ep, rejected st) ∷ []))
          (ends (failure (rpc st)) c ((ep, rejected st) ∷ []))
          (λ retry.
            if_cases P (leb config.max_retries attempts)
              (ends (failure (retries_exhausted attempts (rpc st))) c ((ep, rejected st) ∷ []))
              (retries (process_leader_header t c st) ((ep, rejected st) ∷ []))
              (λ _. on_refusal c ep st (retries_exhausted attempts (rpc st)))
              (λ more. on_retry (process_leader_header t c st) ep st retry more))
          (λ _. on_refusal c ep st (rpc st))

    pub turn_cases :
        (x : SqlGatewayClient × ClientResult Value (List Char))
        → P (after_connect t config nets op idempotent attempts x)
    turn_cases (c, success ep) = call_cases c ep (op attempts ep)
    turn_cases (c, failure e) =
        if_cases P (is_invalid t config nets op idempotent e) (ends (failure e) c [])
          (if leb config.max_retries attempts
            then ends (failure (retries_exhausted attempts e)) c []
            else retries (reset_connection c) [])
          (λ _. on_invalid c e)
          (λ _.
            if_cases P (leb config.max_retries attempts)
              (ends (failure (retries_exhausted attempts e)) c []) (retries (reset_connection c) [])
              (λ _. on_no_connection c e) (λ more. on_reset (reset_connection c) more))
