-- ===== src/Transport/Packer/Losses.antt =====
-- internal/transport/packer.go: bytes that SubmitFromSendStream takes from a stream and does not send.
use kwik.Prelude.{
  ℕ, ◌+◌, ◌-◌, ◌≤◌, ◌<◌, ◌≡◌, refl, List, [], ◌∷◌, ◌++◌, true, false, none, ltb, length,
  length-append, length-take, take, drop, concat, add64, arith, inl, inr, Bool-cases,
}
use kwik.Prelude.Map.{has}
use kwik.Protocol.Errors.{frame_too_large, ok, err}
use kwik.Protocol.Frame.{stream, StreamFrame}
use kwik.Protocol.Packet.{serialize_packet}
use kwik.Stream.Send.{SendStream, pop_frames, pop_loop, make_frame, finish_pop, is_empty}
use kwik.Transport.Packer.{enc_size, Packer, Call, next_seq, numbered, send_body}
use kwik.Transport.Packer.Flush.{
  provider, collect_frames, send_popped, after_collection, submit_from_send_stream,
}
use kwik.Protocol.Packet.RoundTrip.{framed}
use kwik.Stream.Send.Pop.{pop_loop-Cuts, payloads}

module _ (max : ℕ) (s : SendStream) (a b : List ℕ) where
  -- The frame of the first write, if all of it is popped and the second write follows.
  abbrev pub first_frame : List (List ℕ) → StreamFrame
  first_frame left = make_frame s s.base_offset a left

  abbrev second_frame : StreamFrame
  second_frame = make_frame s (add64 s.base_offset (length a)) b []

  pop_frames_two :
      s.send_buffer ≡ a ∷ b ∷ []
      → length a < max
      → length a + length b ≤ max
      → (s' : SendStream) × (pop_frames max s ≡ (first_frame (b ∷ []) ∷ second_frame ∷ [], s'))
        × (s'.send_buffer ≡ [])
  unfolding pop_frames pop_loop finish_pop
  pop_frames_two buffer room both =
      let r = pop_loop s (a ∷ b ∷ []) s.base_offset max in
      (finish_pop s r, ground (arith, buffer), ground (arith, buffer))

-- The loop over the popped frames stops in front of a second frame that has no room.
collect_two :
    (max : ℕ) (f g : StreamFrame)
    → enc_size f ≤ max
    → enc_size g ≤ max
    → max < enc_size f + enc_size g
    → collect_frames max 0 (f ∷ g ∷ []) ≡ ok (f ∷ [])
unfolding collect_frames
collect_two max f g hf hg full =
    let first : ltb max (enc_size f) ≡ false = ground arith in
    let room : ltb max (0 + enc_size f) ≡ false = ground arith in
    let second : ltb max (enc_size g) ≡ false = ground arith in
    let no_room : ltb max (0 + enc_size f + enc_size g) ≡ true = ground arith in
    rw (first, room, second, no_room) refl

-- A flush of a stream without data writes nothing.
submit_from_send_stream_empty :
    (c : Call) (pid sid : ℕ) (s : SendStream) (p : Packer)
    → s.send_buffer ≡ []
    → (submit_from_send_stream c pid sid (provider s) p).0.writes ≡ []
unfolding submit_from_send_stream pop_frames collect_frames after_collection
submit_from_send_stream_empty c pid sid s p empty = rw empty refl

-- Two writes `a` and `b` wait in a stream, which PopFrames gives out together as they are not longer
-- than a packet, though their two frames do not fit one packet by the estimate of 21 bytes for the
-- rest of a frame. If by this estimate each of the frames fits one alone, and the packet with the
-- frame of `a` does, then SubmitFromSendStream on a registered path reports success, if the path
-- does, and writes one packet that holds `a` alone. The stream's buffer is empty then, and
-- another SubmitFromSendStream for the stream as it is, at any time, writes nothing.
pub submit_from_send_stream_drops :
    (c again : Call) (pid sid : ℕ) (s : SendStream) (p later : Packer) (a b : List ℕ)
    → s.send_buffer ≡ a ∷ b ∷ []
    → length a + length b ≤ p.max_packet_size
    → p.max_packet_size < 42 + length a + length b
    → 21 + length a ≤ p.max_packet_size
    → 21 + length b ≤ p.max_packet_size
    → let body =
        serialize_packet (
          numbered (next_seq pid p) (stream (first_frame p.max_packet_size s a b (b ∷ [])) ∷ [])) in
      length body ≤ p.max_packet_size
      → has pid p.paths ≡ true
      → c.reply ≡ none
      → (s' : SendStream) × ((submit_from_send_stream c pid sid (provider s) p).1 ≡ provider s')
        × (s'.send_buffer ≡ [])
        × ((submit_from_send_stream c pid sid (provider s) p).0.result ≡ ok tt)
        × ((submit_from_send_stream c pid sid (provider s) p).0.writes
            ≡ record { path = pid; carrier = sid; bytes = framed body } ∷ [])
        × ((submit_from_send_stream again pid sid (provider s') later).0.writes ≡ [])
unfolding submit_from_send_stream after_collection send_popped send_body enc_size
submit_from_send_stream_drops c again pid sid s p later a b buffer both full ha hb short known
      replied =
    let max = p.max_packet_size in
    let f = first_frame max s a b (b ∷ []) in
    let g = second_frame max s a b in
    let (s', popped, empty) = pop_frames_two max s a b buffer (omega arith) both in
    let taken = collect_two max f g ha hb (omega arith) in
    let small : ltb p.max_packet_size
          (length (serialize_packet (numbered (next_seq pid p) (stream f ∷ []))))
        ≡ false =
      ground arith in
    rw (popped, taken, small, known, replied)
      (s', refl, empty, refl, refl, submit_from_send_stream_empty again pid sid s' later empty)

collect_large :
    (max : ℕ) (f : StreamFrame) (fs : List StreamFrame)
    → max < enc_size f
    → collect_frames max 0 (f ∷ fs) ≡ err (frame_too_large (enc_size f) max)
unfolding collect_frames
collect_large max f fs big = let e : ltb max (enc_size f) ≡ true = ground arith in rw e refl

-- PopFrames neither loses nor reorders a byte.
pop_frames-conserves :
    (max : ℕ) (s : SendStream)
    → payloads (pop_frames max s).0 ++ concat (pop_frames max s).1.send_buffer
      ≡ concat s.send_buffer
unfolding pop_frames finish_pop
pop_frames-conserves max s = elim (Bool-cases (is_empty s.send_buffer)) [
  | inl e ↦ rw e refl
  | inr e ↦ rw e (pop_loop-Cuts s s.send_buffer s.base_offset max).conserved
]

-- The first frame that the loop gives out is too large for a packet.
record StartsLarge (max : ℕ) (popped : List StreamFrame) : Type 0 where
  frame : StreamFrame
  frames : List StreamFrame
  shape : popped ≡ frame ∷ frames
  large : max < enc_size frame

pop_loop-StartsLarge :
    (max offset : ℕ) (s : SendStream) (a : List ℕ) (rest : List (List ℕ))
    → 21 ≤ max
    → max < 21 + length a
    → StartsLarge max (pop_loop s (a ∷ rest) offset max).frames
unfolding pop_loop enc_size
pop_loop-StartsLarge max offset s a rest wide big =
    let go : ltb 0 max ≡ true = ground arith in
    elim (Bool-cases (ltb max (length a))) [
      | inl split ↦
          rw (go, split)
            (record {
              frame = make_frame s offset (take max a) (drop max a ∷ rest);
              frames = [];
              shape = refl;
              large = ground (arith, split, length-take max a);
            })
      | inr whole ↦
          rw (go, whole)
            (record {
              frame = make_frame s offset a rest;
              frames = (pop_loop s rest (add64 offset (length a)) (max - length a)).frames;
              shape = refl;
              large = omega arith;
            })
    ]

pop_frames-StartsLarge :
    (max : ℕ) (s : SendStream) (a : List ℕ) (rest : List (List ℕ))
    → s.send_buffer ≡ a ∷ rest
    → 21 ≤ max
    → max < 21 + length a
    → StartsLarge max (pop_frames max s).0
unfolding pop_frames
pop_frames-StartsLarge max s a rest buffer wide big =
    rw buffer
      (pop_loop-StartsLarge max s.base_offset (record s { send_buffer = a ∷ rest }) a rest wide big)

-- If the first write that waits in a stream is longer than a packet less the 21 bytes that the
-- estimate adds, then SubmitFromSendStream fails, writes nothing and changes nothing in the packer,
-- and some bytes at the front of the stream's buffer are gone.
pub submit_from_send_stream_loses :
    (c : Call) (pid sid : ℕ) (s : SendStream) (p : Packer) (a : List ℕ) (rest : List (List ℕ))
    → s.send_buffer ≡ a ∷ rest
    → 21 ≤ p.max_packet_size
    → p.max_packet_size < 21 + length a
    → let (outcome, src) = submit_from_send_stream c pid sid (provider s) p in
      (size : ℕ) × (s' : SendStream) × (lost : List ℕ) × (outcome
        ≡ record { result = err (frame_too_large size p.max_packet_size); packer = p; writes = [] })
      × (src ≡ provider s')
      × (0 < length lost)
      × (lost ++ concat s'.send_buffer ≡ concat s.send_buffer)
unfolding submit_from_send_stream after_collection enc_size
submit_from_send_stream_loses c pid sid s p a rest buffer wide big =
    let max = p.max_packet_size in
    let l = pop_frames-StartsLarge max s a rest buffer wide big in
    let e : collect_frames max 0 (pop_frames max s).0
        ≡ err (frame_too_large (enc_size l.frame) max) =
      rw (l.shape) (collect_large max l.frame l.frames l.large) in
    let long : 0 < length (payloads (pop_frames max s).0) =
      rw (l.shape) (omega (arith, l.large, length-append l.frame.payload (payloads l.frames))) in
    (
      enc_size l.frame,
      (pop_frames max s).1,
      payloads (pop_frames max s).0,
      rw e refl,
      refl,
      long,
      pop_frames-conserves max s,
    )
