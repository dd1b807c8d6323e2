-- ===== src/Protocol/Frames/Headers.antt =====
-- src/transport/mod.rs: what `try_take_framed_message` makes of a buffer that starts a frame.
use native.Mathlib.Decide.{dec_lt}
use rsqlite_rsync.Base.{
  ℕ, suc, ◌+◌, ◌-◌, ◌/◌, ◌%◌, ◌≤◌, ◌<◌, ◌≡◌, refl, ap, ◌∙◌, ◌⊎◌, inl, inr, List, [], ◌∷◌, ◌++◌,
  none, some, length, length-append, drop, le→ltb_false, lt→ltb, arith,
}
use rsqlite_rsync.Error.{ok}
use rsqlite_rsync.Protocol.Messages.{Message}
use rsqlite_rsync.Protocol.Frames.{Bincode, to_le_bytes, from_le_bytes, try_take_framed_message}
use rsqlite_rsync.Db.Pages.{take-append_length, drop-append_beyond, drop_eq}

-- The four bytes of a 32-bit number, read back.
pub le_bytes_round_trip :
    (n : ℕ)
    → n < 4294967296
    → from_le_bytes (n % 256) (n / 256 % 256) (n / 65536 % 256) (n / 16777216 % 256) ≡ n
le_bytes_round_trip n h = omega arith

-- Two ways to cut one list: the longer first part continues the other.
pub split_append :
    (bs rest payload later : List ℕ)
    → bs ++ rest ≡ payload ++ later
    → length payload ≤ length bs
    → (more : List ℕ) × (bs ≡ payload ++ more) × (more ++ rest ≡ later)
split_append bs rest [] later e fits = (bs, refl, e)
split_append [] rest (p ∷ payload) later e fits = absurd (omega arith)
split_append (b ∷ bs) rest (p ∷ payload) later e fits =
    let same : b ≡ p = cc in
    let tails : bs ++ rest ≡ payload ++ later = cc in
    let (more, first, after) = split_append bs rest payload later tails (omega arith) in
    (more, cc, after)

module _ (bincode : Bincode) (m : Message) (payload : List ℕ)
    (encoded : bincode.encode_to_vec m ≡ ok payload) (fits : length payload ≤ 268435456) where
  -- The frame of `m`.
  abbrev pub frame : List ℕ
  frame = to_le_bytes (length payload) ++ payload

  whole_frame :
      (a b c d : ℕ) (more : List ℕ)
      → from_le_bytes a b c d ≡ length payload
      → try_take_framed_message bincode (a ∷ b ∷ c ∷ d ∷ payload ++ more) ≡ ok (some m, more)
  unfolding try_take_framed_message
  whole_frame a b c d more e =
      rw
        (
          e,
          le→ltb_false 268435456 (length payload) fits,
          le→ltb_false (length (a ∷ b ∷ c ∷ d ∷ payload ++ more)) (4 + length payload)
              (omega (arith, length-append payload more)),
          take-append_length payload more,
          bincode.round_trip m payload encoded,
        )
        (ap (λ (r : List ℕ). ok (some m, r)) after)
    where
      after : drop (4 + length payload) (a ∷ b ∷ c ∷ d ∷ payload ++ more) ≡ more
      after =
          drop_eq (a ∷ b ∷ c ∷ d ∷ payload ++ more) (4 + length payload)
            (suc (suc (suc (suc (length payload))))) (omega arith)
          ∙ drop-append_beyond payload more (length payload) (omega arith)
          ∙ drop_eq more (length payload - length payload) 0 (omega arith)

  part_of_frame :
      (a b c d : ℕ) (bs : List ℕ)
      → from_le_bytes a b c d ≡ length payload
      → length bs < length payload
      → try_take_framed_message bincode (a ∷ b ∷ c ∷ d ∷ bs) ≡ ok (none, a ∷ b ∷ c ∷ d ∷ bs)
  unfolding try_take_framed_message
  part_of_frame a b c d bs e short =
      rw
        (
          e,
          le→ltb_false 268435456 (length payload) fits,
          lt→ltb (length (a ∷ b ∷ c ∷ d ∷ bs)) (4 + length payload) (omega (arith, short)),
        )
        refl

  -- A buffer that starts the frame holds less than the frame, or all of it and more.
  pub take_cases :
      (buf rest later : List ℕ)
      → buf ++ rest ≡ frame ++ later
      → ((try_take_framed_message bincode buf ≡ ok (none, buf)) × (length buf < length payload + 4))
        ⊎ ((more : List ℕ) × (try_take_framed_message bincode buf ≡ ok (some m, more))
            × (more ++ rest ≡ later))
  unfolding try_take_framed_message
  take_cases [] rest later e = inl (refl, omega arith)
  take_cases (a ∷ []) rest later e = inl (refl, omega arith)
  take_cases (a ∷ b ∷ []) rest later e = inl (refl, omega arith)
  take_cases (a ∷ b ∷ c ∷ []) rest later e = inl (refl, omega arith)
  take_cases (a ∷ b ∷ c ∷ d ∷ bs) rest later e =
      let n = length payload in
      let ea : a ≡ n % 256 = cc in
      let eb : b ≡ n / 256 % 256 = cc in
      let ec : c ≡ n / 65536 % 256 = cc in
      let ed : d ≡ n / 16777216 % 256 = cc in
      let tails : bs ++ rest ≡ payload ++ later = cc in
      let size : from_le_bytes a b c d ≡ n = omega arith in
      elim (dec_lt (length bs) n) [
        | yes short ↦ inl (part_of_frame a b c d bs size short, omega (arith, short))
        | no long ↦
            let (more, first, after) =
              split_append bs rest payload later tails (omega (arith, long)) in
            inr (
              more,
              ap (λ (x : List ℕ). try_take_framed_message bincode (a ∷ b ∷ c ∷ d ∷ x)) first
                  ∙ whole_frame a b c d more size,
              after,
            )
      ]
