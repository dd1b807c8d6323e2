-- ===== src/Client/Retry/Termination.antt =====
-- crates/rsqlite-rsync-client/src/client.rs: the loop of attempts ends.
use Prim.Native.Char.{Char}
use rsqlite_rsync.Base.{
  ℕ, zero, suc, ◌+◌, ◌≤◌, ◌<◌, ◌≡◌, refl, sym, subst, ◌⊎◌, inl, inr, List, [], ◌∷◌, Option, none,
  some, Bool, true, false, max, leb, le→leb, length, length-append, arith,
}
use rsqlite_rsync.Gateway.Status.{Tonic}
use rsqlite_rsync.Gateway.Server.{Reply}
use rsqlite_rsync.Client.Discovery.{ClientConfig, ClientResult, Net}
use rsqlite_rsync.Client.Retry.{
  SqlGatewayClient, next_backoff, get_or_connect, Turn, ends, retries, after_connect, turn, Outcome,
  preceded, after_turn, attempts_loop, retry_loop,
}
use rsqlite_rsync.Client.Retry.Attempts.{IsEnd, calls_of, turn_cases}

module _ (t : Tonic) {A : Type 0} (config : ClientConfig) (nets : ℕ → Net t.Value)
    (op : ℕ → List Char → Reply t.Value A) (idempotent : Bool) where
  open t use {Value}

  contradicted : {b : Bool} → b ≡ true → b ≡ false → ⊥
  contradicted p q = cc

  -- The last attempt ends the loop.
  last-IsEnd :
      (attempts : ℕ) (x : SqlGatewayClient × ClientResult Value (List Char))
      → leb config.max_retries attempts ≡ true
      → IsEnd t config nets op idempotent (after_connect t config nets op idempotent attempts x)
  last-IsEnd attempts x last =
      turn_cases t config nets op idempotent (IsEnd t config nets op idempotent) attempts
        (λ c e. tt) (λ c e. tt) (λ c more. contradicted last more) (λ c ep a. tt) (λ c ep st e. tt)
        (λ c ep st retry more. contradicted last more) x

  -- An attempt makes at most one call.
  abbrev AtMostOne : Turn t config nets op idempotent → Type 0
  AtMostOne x = length (calls_of t config nets op idempotent x) ≤ 1

  turn-AtMostOne :
      (attempts : ℕ) (x : SqlGatewayClient × ClientResult Value (List Char))
      → AtMostOne (after_connect t config nets op idempotent attempts x)
  turn-AtMostOne attempts x =
      turn_cases t config nets op idempotent AtMostOne attempts (λ c e. omega arith)
        (λ c e. omega arith) (λ c more. omega arith) (λ c ep a. omega arith)
        (λ c ep st e. omega arith) (λ c ep st retry more. omega arith) x

  abbrev pub AllAtMost : ℕ → List ℕ → Type 0
  AllAtMost bound [] = Unit
  AllAtMost bound (p ∷ ps) = (p ≤ bound) × AllAtMost bound ps

  -- An outcome with at most `n` calls, fewer pauses, and no pause above the bound.
  abbrev pub Within : ℕ → ℕ → Outcome t config nets op idempotent → Type 0
  Within n bound o = (length o.calls ≤ n) × (length o.pauses < n) × AllAtMost bound o.pauses

  abbrev pub Returns :
      Option (Outcome t config nets op idempotent)
      → (Outcome t config nets op idempotent → Type 0)
      → Type 0
  Returns none P = ⊥
  Returns (some o) P = P o

  after-Within :
      (fuel bound backoff : ℕ) (x : Turn t config nets op idempotent)
      (next : SqlGatewayClient → Option (Outcome t config nets op idempotent))
      → AtMostOne x
      → backoff ≤ bound
      → IsEnd t config nets op idempotent x
        ⊎ ((c : SqlGatewayClient) → Returns (next c) (Within fuel bound))
      → Returns (after_turn t config nets op idempotent backoff x next) (Within (suc fuel) bound)
  after-Within fuel bound backoff (ends r c calls) next one low later =
      (omega arith, omega arith, tt)
  after-Within fuel bound backoff (retries c calls) next one low (inl e) = absurd e
  after-Within fuel bound backoff (retries c calls) next one low (inr later) =
      longer (next c) (later c)
    where
      longer :
          (o : Option (Outcome t config nets op idempotent))
          → Returns o (Within fuel bound)
          → Returns (preceded t config nets op idempotent calls backoff o) (Within (suc fuel) bound)
      longer none w = absurd w
      longer (some o) (a, b, d) =
          (omega (arith, length-append calls o.calls), omega arith, (low, d))

  next_backoff-le :
      (backoff bound : ℕ)
      → config.max_backoff_ms ≤ bound
      → next_backoff backoff config.max_backoff_ms ≤ bound
  unfolding next_backoff
  next_backoff-le backoff bound h = omega arith

  loop-Within :
      (fuel attempts bound backoff : ℕ) (c : SqlGatewayClient)
      → config.max_retries ≤ attempts + fuel
      → backoff ≤ bound
      → config.max_backoff_ms ≤ bound
      → Returns
          (attempts_loop t config nets op idempotent (suc fuel) attempts backoff c)
          (Within (suc fuel) bound)
  unfolding attempts_loop turn
  loop-Within zero attempts bound backoff c enough low top =
      after-Within zero bound backoff (turn t config nets op idempotent attempts c) (λ _. none)
        (turn-AtMostOne attempts (get_or_connect t config (nets attempts) c)) low
        (inl (
          last-IsEnd attempts (get_or_connect t config (nets attempts) c)
            (le→leb config.max_retries attempts (omega arith))))
  loop-Within (suc fuel) attempts bound backoff c enough low top =
      after-Within (suc fuel) bound backoff (turn t config nets op idempotent attempts c)
        (attempts_loop t config nets op idempotent (suc fuel) (suc attempts)
          (next_backoff backoff config.max_backoff_ms))
        (turn-AtMostOne attempts (get_or_connect t config (nets attempts) c)) low
        (inr (λ c'.
          loop-Within fuel (suc attempts) bound (next_backoff backoff config.max_backoff_ms) c'
            (omega arith) (next_backoff-le backoff bound top) top))

  -- Whatever the network does, a call with retries returns. It calls nodes no more often than
  -- `max_retries` says, or once where that is 0, pauses less often than that, and no pause is longer
  -- than the first one or the upper bound, whichever is greater.
  pub retry_loop_returns :
      (c : SqlGatewayClient)
      → Returns
          (retry_loop t config nets op idempotent c)
          (Within (max config.max_retries 1) (max config.initial_backoff_ms config.max_backoff_ms))
  unfolding retry_loop
  retry_loop_returns c = by_count config.max_retries refl
    where
      by_count :
          (n : ℕ)
          → config.max_retries ≡ n
          → Returns
              (attempts_loop t config nets op idempotent (max n 1) 1 config.initial_backoff_ms c)
              (Within (max n 1) (max config.initial_backoff_ms config.max_backoff_ms))
      by_count zero e =
          loop-Within 0 1 (max config.initial_backoff_ms config.max_backoff_ms)
            config.initial_backoff_ms c (omega arith) (omega arith) (omega arith)
      by_count (suc n) e =
          let one : max (suc n) 1 ≡ suc n = omega arith in
          subst
            (λ (m : ℕ).
              Returns (attempts_loop t config nets op idempotent m 1 config.initial_backoff_ms c)
                (Within m (max config.initial_backoff_ms config.max_backoff_ms)))
            (sym one)
            (loop-Within n 1 (max config.initial_backoff_ms config.max_backoff_ms)
              config.initial_backoff_ms c (omega arith) (omega arith) (omega arith))
