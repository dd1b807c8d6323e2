-- ===== src/Client/Retry/Repeats.antt =====
-- crates/rsqlite-rsync-client/src/client.rs: a call that is not idempotent is never repeated after a
-- node may have carried it out.
use Prim.Native.Char.{Char}
use rsqlite_rsync.Base.{
  ℕ, zero, suc, ◌≡◌, refl, List, [], ◌∷◌, ◌++◌, Option, none, some, Bool, true, false, ◌&&◌, ◌||◌,
  max,
}
use rsqlite_rsync.Gateway.Status.{Tonic}
use rsqlite_rsync.Gateway.Server.{Reply, replied, rejected}
use rsqlite_rsync.Client.Discovery.{ClientConfig, ClientResult, success, failure, Net}
use rsqlite_rsync.Client.Retry.{
  SqlGatewayClient, next_backoff, is_not_leader_status, is_transient, get_or_connect, Turn, ends,
  retries, after_connect, turn, Outcome, preceded, after_turn, attempts_loop, retry_loop,
}
use rsqlite_rsync.Client.Retry.Attempts.{Call, turn_cases}
use rsqlite_rsync.Client.Retry.Termination.{Returns, Within, retry_loop_returns}

module _ (t : Tonic) {A : Type 0} (config : ClientConfig) (nets : ℕ → Net t.Value)
    (op : ℕ → List Char → Reply t.Value A) (idempotent : Bool) where
  open t use {Value}

  -- Every call is answered that the node is not the leader.
  abbrev AllNotLeader : List (Call t config nets op idempotent) → Type 0
  AllNotLeader [] = Unit
  AllNotLeader ((ep, replied a) ∷ calls) = ⊥
  AllNotLeader ((ep, rejected st) ∷ calls) = (is_not_leader_status t st ≡ true) × AllNotLeader calls

  -- Only the last call may have been carried out.
  abbrev pub OnlyLast : List (Call t config nets op idempotent) → Type 0
  OnlyLast [] = Unit
  OnlyLast (call ∷ []) = Unit
  OnlyLast ((ep, replied a) ∷ next ∷ calls) = ⊥
  OnlyLast ((ep, rejected st) ∷ next ∷ calls) =
      (is_not_leader_status t st ≡ true) × OnlyLast (next ∷ calls)

  -- A result is the reply to the last call.
  abbrev pub IsReply : ClientResult Value A → List (Call t config nets op idempotent) → Type 0
  IsReply (failure e) calls = Unit
  IsReply (success a) [] = ⊥
  IsReply (success a) ((ep, r) ∷ []) = r ≡ replied a
  IsReply (success a) (call ∷ next ∷ calls) = IsReply (success a) (next ∷ calls)

  IsReply-append :
      (r : ClientResult Value A) (xs ys : List (Call t config nets op idempotent))
      → IsReply r ys
      → IsReply r (xs ++ ys)
  IsReply-append (failure e) xs ys h = tt
  IsReply-append (success a) [] ys h = h
  IsReply-append (success a) (x ∷ []) [] h = absurd h
  IsReply-append (success a) (x ∷ []) (y ∷ ys) h = h
  IsReply-append (success a) (x ∷ z ∷ xs) ys h = IsReply-append (success a) (z ∷ xs) ys h

  OnlyLast-append :
      (xs ys : List (Call t config nets op idempotent))
      → AllNotLeader xs
      → OnlyLast ys
      → OnlyLast (xs ++ ys)
  OnlyLast-append [] ys all last = last
  OnlyLast-append ((ep, replied a) ∷ xs) ys all last = absurd all
  OnlyLast-append ((ep, rejected st) ∷ []) [] (denied, all) last = tt
  OnlyLast-append ((ep, rejected st) ∷ []) (y ∷ ys) (denied, all) last = (denied, last)
  OnlyLast-append ((ep, rejected st) ∷ x ∷ xs) ys (denied, all) last =
      (denied, OnlyLast-append (x ∷ xs) ys all last)

  -- What an attempt leaves for the list of calls.
  abbrev Safe : Turn t config nets op idempotent → Type 0
  Safe (ends r c calls) = OnlyLast calls × IsReply r calls
  Safe (retries c calls) = AllNotLeader calls

  turn-Safe :
      idempotent ≡ false
      → (attempts : ℕ) (x : SqlGatewayClient × ClientResult Value (List Char))
      → Safe (after_connect t config nets op idempotent attempts x)
  turn-Safe never attempts x =
      turn_cases t config nets op idempotent Safe attempts (λ c e. (tt, tt)) (λ c e. (tt, tt))
        (λ c more. tt) (λ c ep a. (tt, refl)) (λ c ep st e. (tt, tt))
        (λ c ep st retry more. (
          not_leader (is_not_leader_status t st) (is_transient st.code) idempotent never retry,
          tt,
        ))
        x
    where
      not_leader : (b d i : Bool) → i ≡ false → (b || i && d) ≡ true → b ≡ true
      not_leader true d i e r = refl
      not_leader false d true e r = cc
      not_leader false d false e r = r

  abbrev Kept : Option (Outcome t config nets op idempotent) → Type 0
  Kept none = Unit
  Kept (some o) = OnlyLast o.calls × IsReply o.result o.calls

  loop-Kept :
      idempotent ≡ false
      → (fuel attempts backoff : ℕ) (c : SqlGatewayClient)
      → Kept (attempts_loop t config nets op idempotent fuel attempts backoff c)
  unfolding attempts_loop turn
  loop-Kept never zero attempts backoff c = tt
  loop-Kept never (suc fuel) attempts backoff c =
      after _ (turn-Safe never attempts (get_or_connect t config (nets attempts) c))
        (loop-Kept never fuel (suc attempts) (next_backoff backoff config.max_backoff_ms))
    where
      longer :
          (calls : List (Call t config nets op idempotent))
          (o : Option (Outcome t config nets op idempotent))
          → AllNotLeader calls
          → Kept o
          → Kept (preceded t config nets op idempotent calls backoff o)
      longer calls none all k = tt
      longer calls (some o) all (last, reply) =
          (OnlyLast-append calls o.calls all last, IsReply-append o.result calls o.calls reply)

      after :
          (x : Turn t config nets op idempotent)
          → Safe x
          → ((c' : SqlGatewayClient)
              → Kept (
                  attempts_loop t config nets op idempotent fuel
                    (suc attempts)
                    (next_backoff backoff config.max_backoff_ms)
                    c'))
          → Kept (
              after_turn t config nets op idempotent backoff x (
                attempts_loop t config nets op idempotent fuel
                  (suc attempts)
                  (next_backoff backoff config.max_backoff_ms)))
      after (ends r c' calls) safe later = safe
      after (retries c' calls) safe later = longer calls _ safe (later c')

  abbrev pub Sent : Outcome t config nets op idempotent → Type 0
  Sent o = OnlyLast o.calls × IsReply o.result o.calls

  -- A call that is not idempotent, an execution or a batch, is sent again only after an answer that
  -- says the node is not the leader: of all the calls made for it only the last may have been carried
  -- out, and a successful result is the reply to that one.
  pub retry_loop_safe :
      idempotent ≡ false
      → (c : SqlGatewayClient)
      → Returns t config nets op idempotent (retry_loop t config nets op idempotent c) Sent
  unfolding retry_loop
  retry_loop_safe never c =
      both (retry_loop t config nets op idempotent c)
        (retry_loop_returns t config nets op idempotent c)
        (loop-Kept never (max config.max_retries 1) 1 config.initial_backoff_ms c)
    where
      both :
          (o : Option (Outcome t config nets op idempotent))
          → Returns t config nets op idempotent o (
              Within t config nets op idempotent
                (max config.max_retries 1)
                (max config.initial_backoff_ms config.max_backoff_ms))
          → Kept o
          → Returns t config nets op idempotent o Sent
      both none w k = absurd w
      both (some o) w k = k
