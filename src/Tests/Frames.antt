-- ===== src/Tests/Frames.antt =====
-- Two messages in a stream that is read in three pieces.
use mathlib.Core.List.{flatten}
use rsqlite_rsync.Base.{ℕ, ◌≡◌, refl, subst, List, [], ◌∷◌, ◌++◌, arith}
use rsqlite_rsync.Error.{Result, ok, err, codec}
use rsqlite_rsync.Protocol.Messages.{Message, done, plain}
use rsqlite_rsync.Protocol.Frames.{Bincode}
use rsqlite_rsync.Protocol.Frames.Stream.{NoneEmpty, send_all, recv_all, recv_all-send_all}

-- A codec that knows one message.
abbrev encode_done : Message → Result (List ℕ)
encode_done done = ok (1 ∷ [])
encode_done other = err (codec (plain "unknown message"))

abbrev decode_done : List ℕ → Result Message
decode_done [] = err (codec (plain "no payload"))
decode_done (x ∷ xs) = ok done

done_round_trip :
    (m : Message) (payload : List ℕ) → encode_done m ≡ ok payload → decode_done payload ≡ ok m
done_round_trip done payload e =
    let same : (1 ∷ []) ≡ payload = cc in subst (λ (p : List ℕ). decode_done p ≡ ok done) same refl
done_round_trip (Message.hello a b c) payload e = cc
done_round_trip (Message.hello_ack a b c) payload e = cc
done_round_trip (Message.group_hashes a b) payload e = cc
done_round_trip (Message.groups_need_fine a) payload e = cc
done_round_trip (Message.page_hashes a b) payload e = cc
done_round_trip (Message.send_pages a) payload e = cc
done_round_trip (Message.pages_ack a) payload e = cc
done_round_trip (Message.error t) payload e = cc

abbrev only_done : Bincode
only_done = record {
  encode_to_vec = encode_done;
  decode_from_slice = decode_done;
  round_trip = done_round_trip;
}

abbrev twice : List Message
twice = done ∷ done ∷ []

abbrev reads : List (List ℕ)
reads = (1 ∷ 0 ∷ 0 ∷ []) ∷ (0 ∷ 1 ∷ 1 ∷ []) ∷ (0 ∷ 0 ∷ 0 ∷ 1 ∷ 9 ∷ []) ∷ []

abbrev two_frames : List ℕ
two_frames = 1 ∷ 0 ∷ 0 ∷ 0 ∷ 1 ∷ 1 ∷ 0 ∷ 0 ∷ 0 ∷ 1 ∷ []

twice_sent : send_all only_done twice ≡ ok two_frames
unfolding send_all
twice_sent = refl

twice_read : flatten reads ≡ two_frames ++ 9 ∷ []
unfolding flatten
twice_read = refl

recv_all-send_all_example :
    (buf' : List ℕ) × (chunks' : List (List ℕ)) × (recv_all only_done 2 [] reads
      ≡ ok (twice, buf', chunks'))
    × (buf' ++ flatten chunks' ≡ 9 ∷ [])
    × NoneEmpty chunks'
recv_all-send_all_example =
    recv_all-send_all only_done twice reads two_frames (9 ∷ [])
      ((1 ∷ [], refl, omega arith), ((1 ∷ [], refl, omega arith), tt))
      (omega arith, (omega arith, (omega arith, tt))) twice_sent twice_read
