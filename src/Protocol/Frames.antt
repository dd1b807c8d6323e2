-- ===== src/Protocol/Frames.antt =====
-- src/protocol/messages.rs, src/transport/mod.rs, src/transport/local.rs: messages as frames of bytes,
-- and the loop that takes them from a stream. The payload's codec, `bincode`, is a parameter.
pub mod Headers
pub mod Stream
use rsqlite_rsync.Base.{
  ℕ, suc, ◌+◌, ◌-◌, ◌*◌, ◌/◌, ◌%◌, ◌≡◌, List, [], ◌∷◌, ◌++◌, Option, none, some, length, take, drop,
  ltb, if◌then◌else◌,
}
use rsqlite_rsync.Error.{Result, ok, err, panic, codec, protocol, and_then}
use rsqlite_rsync.Protocol.{u32}
use rsqlite_rsync.Protocol.Messages.{Message, plain, format, max_message_size}

-- What is read back is what was encoded, as the crate documents.
pub record Bincode : Type 0 where
  pub encode_to_vec : Message → Result (List ℕ)
  pub decode_from_slice : List ℕ → Result Message
  pub round_trip :
      (m : Message) (payload : List ℕ)
      → encode_to_vec m ≡ ok payload
      → decode_from_slice payload ≡ ok m

abbrev pub to_le_bytes : ℕ → List ℕ
to_le_bytes n = n % 256 ∷ n / 256 % 256 ∷ n / 65536 % 256 ∷ n / 16777216 % 256 ∷ []

abbrev pub from_le_bytes : ℕ → ℕ → ℕ → ℕ → ℕ
from_le_bytes a b c d = a + 256 * b + 65536 * c + 16777216 * d

abbrev too_short : Result (Message × ℕ)
too_short = err (codec (plain "buffer too short for length prefix"))

module _ (bincode : Bincode) where
  unfoldable pub encode : Message → Result (List ℕ)
  encode msg =
      and_then (bincode.encode_to_vec msg)
        λ payload. ok (to_le_bytes (u32 (length payload)) ++ payload)

  -- The message and the number of bytes consumed.
  unfoldable pub decode : List ℕ → Result (Message × ℕ)
  decode [] = too_short
  decode (a ∷ []) = too_short
  decode (a ∷ b ∷ []) = too_short
  decode (a ∷ b ∷ c ∷ []) = too_short
  decode (a ∷ b ∷ c ∷ d ∷ rest) =
      let len = from_le_bytes a b c d in
      if ltb max_message_size len
      then err
          (codec (format "message frame exceeds max size: {} > {}" (len ∷ max_message_size ∷ [])))
      else if ltb (length (a ∷ b ∷ c ∷ d ∷ rest)) (4 + len)
      then err (
          codec (
            format "buffer has {} bytes but expected {} payload bytes"
              ((length (a ∷ b ∷ c ∷ d ∷ rest) - 4) ∷ len ∷ [])))
      else and_then (bincode.decode_from_slice (take len rest)) λ msg. ok (msg, 4 + len)

  -- The message, if a whole one is there, and the buffer after it.
  unfoldable pub try_take_framed_message : List ℕ → Result (Option Message × List ℕ)
  unfolding decode
  try_take_framed_message [] = ok (none, [])
  try_take_framed_message (a ∷ []) = ok (none, a ∷ [])
  try_take_framed_message (a ∷ b ∷ []) = ok (none, a ∷ b ∷ [])
  try_take_framed_message (a ∷ b ∷ c ∷ []) = ok (none, a ∷ b ∷ c ∷ [])
  try_take_framed_message (a ∷ b ∷ c ∷ d ∷ rest) =
      let payload_len = from_le_bytes a b c d in
      if ltb max_message_size payload_len
      then err (
          codec (
            format "message frame exceeds max size: {} > {}" (payload_len ∷ max_message_size ∷ [])))
      else if ltb (length (a ∷ b ∷ c ∷ d ∷ rest)) (4 + payload_len)
      then ok (none, a ∷ b ∷ c ∷ d ∷ rest)
      else and_then (decode (a ∷ b ∷ c ∷ d ∷ rest))
          λ taken. ok (some taken.0, drop taken.1 (a ∷ b ∷ c ∷ d ∷ rest))

  -- What `recv` does with the outcome: hand over the message, or read on. A read of no byte means that
  -- the other side has gone.
  abbrev read_on :
      Result (Option Message × List ℕ)
      → (List ℕ → Result (Message × List ℕ × List (List ℕ)))
      → List (List ℕ)
      → Result (Message × List ℕ × List (List ℕ))
  read_on (err e) more chunks = err e
  read_on panic more chunks = panic
  read_on (ok (some msg, buf)) more chunks = ok (msg, buf, chunks)
  read_on (ok (none, buf)) more chunks = more buf

  -- `LocalTransport::recv` on its buffer and the chunks that the reads of the stream will return.
  unfoldable pub recv : List ℕ → List (List ℕ) → Result (Message × List ℕ × List (List ℕ))
  unfolding try_take_framed_message
  recv buf [] =
      read_on (try_take_framed_message buf)
        (λ buf'. err (protocol (plain "connection closed unexpectedly"))) []
  recv buf ([] ∷ chunks) =
      read_on (try_take_framed_message buf)
        (λ buf'. err (protocol (plain "connection closed unexpectedly"))) ([] ∷ chunks)
  recv buf ((x ∷ chunk) ∷ chunks) =
      let later = recv (buf ++ x ∷ chunk) chunks in
      read_on (try_take_framed_message buf) (λ buf'. later) ((x ∷ chunk) ∷ chunks)
