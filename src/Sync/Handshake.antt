-- ===== src/Sync/Handshake.antt =====
-- src/protocol/origin.rs: the origin's handshake, whatever the first message is that it gets.
use rsqlite_rsync.Base.{
  ℕ, ◌≤◌, ◌≡◌, ◌≢◌, refl, ◌⊎◌, inl, inr, List, [], ◌∷◌, ◌++◌, some, min, ◌==◌, true, false, Bool,
  not, ◌&&◌, zero, suc, Bool-cases, ==_iff, arith,
}
use native.Mathlib.Decide.{dec_lt}
use rsqlite_rsync.Hash.{HashAlgorithm, Digests, sha256_v1, blake3_v2, from_protocol_version}
use rsqlite_rsync.Error.{err, page_size_mismatch, protocol}
use rsqlite_rsync.Snapshot.{Snapshot}
use rsqlite_rsync.Tuning.{SyncTuning}
use rsqlite_rsync.Db.{Connection}
use rsqlite_rsync.Protocol.{Rayon}
use rsqlite_rsync.Protocol.Messages.{
  Message, Text, hello, hello_ack, group_hashes, groups_need_fine, page_hashes, send_pages,
  pages_ack, done, error, plain, format, format_debug, protocol_version,
}
use rsqlite_rsync.Protocol.Process.{Process, finish, ◌>>=◌, protocol_violation}
use rsqlite_rsync.Protocol.Origin.Fine.{negotiate}
use rsqlite_rsync.Sync.{Session, step_origin}
use rsqlite_rsync.Sync.Steps.{Steps, here, by_origin}

-- Every version from 1 on, as it is negotiated, has a digest.
known :
    (version : ℕ)
    → 1 ≤ version
    → (alg : HashAlgorithm) × (from_protocol_version (min version protocol_version) ≡ some alg)
unfolding from_protocol_version
known version h = elim (dec_lt version 2) [
  | yes old ↦ (sha256_v1, ground arith)
  | no new ↦ (blake3_v2, ground arith)
]

not_zero : (version : ℕ) → 1 ≤ version → (version == 0) ≡ false
not_zero version h = ground arith

-- The test of the page sizes: both must differ for a refusal.
abbrev refused : ℕ → ℕ → Bool
refused origin_size replica_size = not (origin_size == replica_size) && not (replica_size == 0)

-- Neither a `Hello` nor an error.
abbrev pub IsOther : Message → Type 0
IsOther (hello version page_size page_count) = ⊥
IsOther (error t) = ⊥
IsOther (hello_ack a b c) = Unit
IsOther (group_hashes a b) = Unit
IsOther (groups_need_fine a) = Unit
IsOther (page_hashes a b) = Unit
IsOther (send_pages a) = Unit
IsOther (pages_ack a) = Unit
IsOther done = Unit

module _ (d : Digests) (rayon : Rayon) (tuning : SyncTuning) (snap : Snapshot)
    (after : HashAlgorithm → Process (Unit {0})) (replica : Process (Unit {0}))
    (later sent : List Message) (conn : Connection) where
  -- The origin has a `Hello` in its queue and `later` behind it.
  abbrev pub greeted : ℕ → ℕ → ℕ → Session
  greeted version page_size page_count = record {
    origin = negotiate d rayon tuning snap >>= after;
    replica = replica;
    to_origin = hello version page_size page_count ∷ later;
    to_replica = sent;
    conn = conn;
  }

  -- It has taken the `Hello`, answered, and goes on as `next`.
  abbrev pub answered : Message → Process (Unit {0}) → Session
  answered message next = record {
    origin = next;
    replica = replica;
    to_origin = later;
    to_replica = sent ++ message ∷ [];
    conn = conn;
  }

  accepted_sizes :
      (page_size : ℕ)
      → (page_size ≡ snap.page_size) ⊎ (page_size ≡ 0)
      → refused snap.page_size page_size ≡ false
  accepted_sizes page_size (inl e) = ground arith
  accepted_sizes page_size (inr e) = ground arith

  refused_sizes :
      (page_size : ℕ)
      → page_size ≢ snap.page_size
      → page_size ≢ 0
      → refused snap.page_size page_size ≡ true
  refused_sizes page_size e f = ground arith

  pub handshake_accepts :
      (version page_size page_count : ℕ)
      → 1 ≤ version
      → (page_size ≡ snap.page_size) ⊎ (page_size ≡ 0)
      → (alg : HashAlgorithm) × (from_protocol_version (min version protocol_version) ≡ some alg)
        × Steps (greeted version page_size page_count) (
            answered
              (hello_ack (min version protocol_version) snap.page_size snap.page_count)
              (after alg))
  unfolding step_origin negotiate
  handshake_accepts version page_size page_count offered fits =
      let (alg, e) = known version offered in
      (
        alg,
        e,
        by_origin refl
            (rw (not_zero version offered, e, accepted_sizes page_size fits) (by_origin refl here)),
      )

  handshake_refuses :
      (version page_size page_count : ℕ)
      → 1 ≤ version
      → page_size ≢ snap.page_size
      → page_size ≢ 0
      → Steps (greeted version page_size page_count) (
          answered
            (error (
              format "page size mismatch: origin={}, replica={}" (snap.page_size ∷ page_size ∷ [])))
            (finish (err (page_size_mismatch snap.page_size page_size))))
  unfolding step_origin negotiate
  handshake_refuses version page_size page_count offered other some_size =
      let (alg, e) = known version offered in
      by_origin refl (
        rw (not_zero version offered, e, refused_sizes page_size other some_size)
          (by_origin refl here))

  -- The session with any first message, and the one in which it is taken without an answer.
  abbrev pub opened : Message → Session
  opened message = record {
    origin = negotiate d rayon tuning snap >>= after;
    replica = replica;
    to_origin = message ∷ later;
    to_replica = sent;
    conn = conn;
  }

  abbrev pub unanswered : Process (Unit {0}) → Session
  unanswered next = record {
    origin = next;
    replica = replica;
    to_origin = later;
    to_replica = sent;
    conn = conn;
  }

  -- It tells the replica a text and ends with it as its error.
  abbrev violation : Text → Session
  violation t = answered (error t) (finish (err (protocol t)))

  -- What a first message leads to.
  pub data Opening : Message → Session → Type 0 where
    accepts :
        (version page_size page_count : ℕ) (alg : HashAlgorithm)
        → 1 ≤ version
        → (page_size ≡ snap.page_size) ⊎ (page_size ≡ 0)
        → from_protocol_version (min version protocol_version) ≡ some alg
        → Opening (hello version page_size page_count) (
            answered
              (hello_ack (min version protocol_version) snap.page_size snap.page_count)
              (after alg))
    old_version :
        (page_size page_count : ℕ)
        → Opening
            (hello 0 page_size page_count)
            (violation (plain "replica offered unsupported protocol version 0"))
    other_size :
        (version page_size page_count : ℕ)
        → 1 ≤ version
        → page_size ≢ snap.page_size
        → page_size ≢ 0
        → Opening (hello version page_size page_count) (
            answered
              (error (
                format "page size mismatch: origin={}, replica={}"
                  (snap.page_size ∷ page_size ∷ [])))
              (finish (err (page_size_mismatch snap.page_size page_size))))
    peer_failed : (t : Text) → Opening (error t) (unanswered (finish (err (protocol t))))
    no_hello :
        (message : Message)
        → IsOther message
        → Opening message (violation (format_debug "expected Hello, got {}" message))

  other_message :
      (message : Message)
      → IsOther message
      → Steps (opened message) (violation (format_debug "expected Hello, got {}" message))
  unfolding step_origin negotiate protocol_violation
  other_message (hello version page_size page_count) h = absurd h
  other_message (error t) h = absurd h
  other_message (hello_ack a b c) h = by_origin refl (by_origin refl here)
  other_message (group_hashes a b) h = by_origin refl (by_origin refl here)
  other_message (groups_need_fine a) h = by_origin refl (by_origin refl here)
  other_message (page_hashes a b) h = by_origin refl (by_origin refl here)
  other_message (send_pages a) h = by_origin refl (by_origin refl here)
  other_message (pages_ack a) h = by_origin refl (by_origin refl here)
  other_message done h = by_origin refl (by_origin refl here)

  no_version :
      (page_size page_count : ℕ)
      → Steps
          (opened (hello 0 page_size page_count))
          (violation (plain "replica offered unsupported protocol version 0"))
  unfolding step_origin negotiate protocol_violation
  no_version page_size page_count = by_origin refl (by_origin refl here)

  peer_error : (t : Text) → Steps (opened (error t)) (unanswered (finish (err (protocol t))))
  unfolding step_origin negotiate
  peer_error t = by_origin refl here

  abbrev Opens : Message → Type 0
  Opens message = (s : Session) × Opening message s × Steps (opened message) s

  new_enough :
      (version page_size page_count : ℕ) → 1 ≤ version → Opens (hello version page_size page_count)
  new_enough version page_size page_count offered =
      elim (Bool-cases (page_size == snap.page_size)) [
        | inl own ↦ fits (inl ((==_iff page_size snap.page_size).0 own))
        | inr other ↦ elim (Bool-cases (page_size == 0)) [
          | inl unset ↦ fits (inr ((==_iff page_size 0).0 unset))
          | inr some_size ↦
              let apart : page_size ≢ snap.page_size = unequal page_size snap.page_size other in
              let filled : page_size ≢ 0 = unequal page_size 0 some_size in
              (
                _,
                other_size version page_size page_count offered apart filled,
                handshake_refuses version page_size page_count offered apart filled,
              )
        ]
      ]
    where
      unequal : (a b : ℕ) → (a == b) ≡ false → a ≢ b
      unequal a b h e = ground arith

      fits :
          (page_size ≡ snap.page_size) ⊎ (page_size ≡ 0)
          → Opens (hello version page_size page_count)
      fits h =
          let (alg, e, run) = handshake_accepts version page_size page_count offered h in
          (_, accepts version page_size page_count alg offered h e, run)

  -- Whatever the first message is that the origin gets, it comes to one of five ends. It answers a `Hello` with a
  -- version from 1 on and its own page size or 0, and goes on with the digest of the lower version. It
  -- refuses version 0, whatever the page size; then a page size that is neither its own nor 0; and any
  -- other message that is no error: it tells the replica, and ends with an error that says the same, or
  -- that names both sizes. An error of the replica it takes for its own, without an answer.
  pub handshake_cases :
      (message : Message) → (s : Session) × Opening message s × Steps (opened message) s
  handshake_cases (hello zero page_size page_count) =
      (_, old_version page_size page_count, no_version page_size page_count)
  handshake_cases (hello (suc v) page_size page_count) =
      new_enough (suc v) page_size page_count (omega arith)
  handshake_cases (error t) = (_, peer_failed t, peer_error t)
  handshake_cases (hello_ack a b c) =
      (_, no_hello (hello_ack a b c) tt, other_message (hello_ack a b c) tt)
  handshake_cases (group_hashes a b) =
      (_, no_hello (group_hashes a b) tt, other_message (group_hashes a b) tt)
  handshake_cases (groups_need_fine a) =
      (_, no_hello (groups_need_fine a) tt, other_message (groups_need_fine a) tt)
  handshake_cases (page_hashes a b) =
      (_, no_hello (page_hashes a b) tt, other_message (page_hashes a b) tt)
  handshake_cases (send_pages a) = (_, no_hello (send_pages a) tt, other_message (send_pages a) tt)
  handshake_cases (pages_ack a) = (_, no_hello (pages_ack a) tt, other_message (pages_ack a) tt)
  handshake_cases done = (_, no_hello done tt, other_message done tt)
