-- ===== src/Protocol/Frames/Stream.antt =====
-- src/transport/local.rs: the messages that are taken from a stream of frames.
use mathlib.Core.List.{flatten, append_assoc}
use rsqlite_rsync.Base.{
  ℕ, zero, suc, ◌≤◌, ◌≡◌, refl, ap, ◌∙◌, inl, inr, List, [], ◌∷◌, ◌++◌, length, length-append,
  arith,
}
use rsqlite_rsync.Error.{Result, ok, and_then}
use rsqlite_rsync.Protocol.{u32}
use rsqlite_rsync.Protocol.Messages.{Message}
use rsqlite_rsync.Protocol.Frames.{Bincode, encode, recv, to_le_bytes}
use rsqlite_rsync.Protocol.Frames.Headers.{frame, take_cases}

-- No read of the stream is empty.
abbrev pub NoneEmpty : List (List ℕ) → Type 0
NoneEmpty [] = Unit {0}
NoneEmpty (chunk ∷ chunks) = (1 ≤ length chunk) × NoneEmpty chunks

module _ (bincode : Bincode) where
  -- The bytes that the messages are written as, one after the other.
  unfoldable pub send_all : List Message → Result (List ℕ)
  unfolding encode
  send_all [] = ok []
  send_all (m ∷ ms) =
      and_then (encode bincode m) λ bytes. and_then (send_all ms) λ rest. ok (bytes ++ rest)

  -- `n` messages, taken one after the other.
  unfoldable pub recv_all :
      ℕ → List ℕ → List (List ℕ) → Result (List Message × List ℕ × List (List ℕ))
  unfolding recv
  recv_all zero buf chunks = ok ([], buf, chunks)
  recv_all (suc n) buf chunks =
      and_then (recv bincode buf chunks)
        λ first. and_then (recv_all n first.1 first.2) λ rest. ok (first.0 ∷ rest.0, rest.1, rest.2)

  -- Each message has a payload of at most 256 MiB.
  abbrev pub AllFit : List Message → Type 0
  AllFit [] = Unit {0}
  AllFit (m ∷ ms) =
      ((payload : List ℕ) × (bincode.encode_to_vec m ≡ ok payload) × (length payload ≤ 268435456))
      × AllFit ms

  module _ (m : Message) (payload : List ℕ) (encoded : bincode.encode_to_vec m ≡ ok payload)
      (fits : length payload ≤ 268435456) where
    -- One message of a stream that goes on with `later`.
    recv-frame :
        (buf : List ℕ) (chunks : List (List ℕ)) (later : List ℕ)
        → buf ++ flatten chunks ≡ frame bincode m payload encoded fits ++ later
        → NoneEmpty chunks
        → (buf' : List ℕ) × (chunks' : List (List ℕ)) × (recv bincode buf chunks
            ≡ ok (m, buf', chunks'))
          × (buf' ++ flatten chunks' ≡ later)
          × NoneEmpty chunks'
    unfolding recv flatten
    recv-frame buf [] later e full =
        elim (take_cases bincode m payload encoded fits buf [] later e) [
          | inl (same, short) ↦
              absurd (
                omega
                  (arith, short, ap length e, length-append buf [], length-append payload later))
          | inr (more, taken, after) ↦ (more, [], rw taken refl, after, tt)
        ]
    recv-frame buf ([] ∷ chunks) later e full = absurd (omega (arith, full.0))
    recv-frame buf ((x ∷ chunk) ∷ chunks) later e full =
        let onward =
          recv-frame (buf ++ x ∷ chunk) chunks later
            (append_assoc buf (x ∷ chunk) (flatten chunks) ∙ e) full.1 in
        elim (take_cases bincode m payload encoded fits buf ((x ∷ chunk) ++ flatten chunks) later
          e) [
            | inl (same, short) ↦ (onward.0, onward.1, rw same onward.2, onward.3, onward.4)
            | inr (more, taken, after) ↦ (more, (x ∷ chunk) ∷ chunks, rw taken refl, after, full)
          ]

  -- The frames of the messages.
  abbrev stream_of : (ms : List Message) → AllFit ms → List ℕ
  stream_of [] fit = []
  stream_of (m ∷ ms) ((payload, encoded, fits), rest) =
      frame bincode m payload encoded fits ++ stream_of ms rest

  encode-frame :
      (m : Message) (payload : List ℕ) (encoded : bincode.encode_to_vec m ≡ ok payload)
      (fits : length payload ≤ 268435456)
      → encode bincode m ≡ ok (frame bincode m payload encoded fits)
  unfolding encode
  encode-frame m payload encoded fits = rw encoded (
      ap (λ (n : ℕ). ok (to_le_bytes n ++ payload)) {x = u32 (length payload)} {y = length payload}
        (omega (arith, fits)))

  send_all-stream_of : (ms : List Message) (fit : AllFit ms) → send_all ms ≡ ok (stream_of ms fit)
  unfolding send_all
  send_all-stream_of [] fit = refl
  send_all-stream_of (m ∷ ms) ((payload, encoded, fits), rest) =
      rw (encode-frame m payload encoded fits, send_all-stream_of ms rest) refl

  recv_stream :
      (ms : List Message) (fit : AllFit ms) (buf : List ℕ) (chunks : List (List ℕ)) (later : List ℕ)
      → NoneEmpty chunks
      → buf ++ flatten chunks ≡ stream_of ms fit ++ later
      → (buf' : List ℕ) × (chunks' : List (List ℕ)) × (recv_all (length ms) buf chunks
          ≡ ok (ms, buf', chunks'))
        × (buf' ++ flatten chunks' ≡ later)
        × NoneEmpty chunks'
  unfolding recv_all
  recv_stream [] fit buf chunks later full e = (buf, chunks, refl, e, full)
  recv_stream (m ∷ ms) ((payload, encoded, fits), rest) buf chunks later full e =
      let (buf1, chunks1, taken, after, full1) =
        recv-frame m payload encoded fits buf chunks (stream_of ms rest ++ later)
          (e ∙ append_assoc (frame bincode m payload encoded fits) (stream_of ms rest) later)
          full in
      let (buf2, chunks2, all, after2, full2) =
        recv_stream ms rest buf1 chunks1 later full1 after in
      (buf2, chunks2, rw (taken, all) refl, after2, full2)

  -- However the stream cuts the bytes of some messages, and of what follows them, into reads, the
  -- receiver takes just these messages, in order, and is left with the bytes that follow, in its
  -- buffer and in later reads. No payload is longer than 256 MiB, and no read is empty.
  pub recv_all-send_all :
      (ms : List Message) (chunks : List (List ℕ)) (bytes later : List ℕ)
      → AllFit ms
      → NoneEmpty chunks
      → send_all ms ≡ ok bytes
      → flatten chunks ≡ bytes ++ later
      → (buf' : List ℕ) × (chunks' : List (List ℕ)) × (recv_all (length ms) [] chunks
          ≡ ok (ms, buf', chunks'))
        × (buf' ++ flatten chunks' ≡ later)
        × NoneEmpty chunks'
  recv_all-send_all ms chunks bytes later fit full sent e =
      let same : bytes ≡ stream_of ms fit = let t = send_all-stream_of ms fit in cc in
      recv_stream ms fit [] chunks later full (e ∙ ap (λ (b : List ℕ). b ++ later) same)
