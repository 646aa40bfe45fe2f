-- ===== src/Transport/Packer/Flush.antt =====
-- internal/transport/packer.go: SubmitFromSendStream and a round of the flush goroutine. The
-- provider of a stream is its SendStream, as StreamImpl passes PopFrames on to it.
use kwik.Prelude.{ℕ, ◌+◌, List, [], ◌∷◌, Bool, true, some, ltb, if◌then◌else◌, length, map}
use kwik.Prelude.Map.{insert, delete, has}
use kwik.Protocol.Errors.{Result, ok, err, panic, frame_too_large, path_not_exists, ◌>>=◌}
use kwik.Protocol.Frame.{Frame, stream, StreamFrame}
use kwik.Protocol.Packet.{serialize_packet}
use kwik.Stream.Send.{SendStream, pop_frames, has_buffered}
use kwik.Transport.Packer.{
  Packer, Call, Submitted, Write, enc_size, next_seq, numbered, send_body, first_attempt,
}

-- What the session of a path says about a stream: there is no session, no provider, or the stream.
-- A session without a stream manager is left out.
pub data Provider : Type 0 where
  no_session : Provider
  no_provider : Provider
  provider : SendStream → Provider

-- The loop over the popped frames: `break` ends it, and the frames behind are left out.
unfoldable pub collect_frames : ℕ → ℕ → List StreamFrame → Result (List StreamFrame)
collect_frames max size [] = ok []
collect_frames max size (f ∷ fs) =
    let rest = collect_frames max (size + enc_size f) fs in
    if ltb max (enc_size f)
    then err (frame_too_large (enc_size f) max)
    else if ltb max (size + enc_size f)
    then ok []
    else rest >>= λ taken. ok (f ∷ taken)

-- A write without an error makes the stream wait for the next flush if it has data left.
unfoldable pub keep_flushing : ℕ → ℕ → Bool → Result (Unit {0}) → Packer → Packer
keep_flushing pid sid true (ok u) p = record p {
  buffered_streams = insert sid pid p.buffered_streams;
}
keep_flushing pid sid _ _ p = p

-- From the sequence number on.
unfoldable pub send_popped : Call → ℕ → ℕ → Bool → List Frame → Packer → Submitted
send_popped c pid sid more frames p =
    let seq = next_seq pid p in
    let p' = record p { next_packet_seq = insert pid seq p.next_packet_seq } in
    let pkt = numbered seq frames in
    let body = serialize_packet pkt in
    if ltb p.max_packet_size (length body)
    then record {
      result = err (frame_too_large (length body) p.max_packet_size);
      packer = p';
      writes = [];
    }
    else let s = send_body c pid seq (first_attempt c sid body (some pkt) frames) p' in
      record s { packer = keep_flushing pid sid more s.result s.packer }

unfoldable pub after_collection :
    Call → ℕ → ℕ → Bool → Packer → Result (List StreamFrame) → Submitted
after_collection c pid sid more p panic = record { result = panic; packer = p; writes = [] }
after_collection c pid sid more p (err e) = record { result = err e; packer = p; writes = [] }
after_collection c pid sid more p (ok []) = record { result = ok tt; packer = p; writes = [] }
after_collection c pid sid more p (ok (f ∷ fs)) = send_popped c pid sid more (map stream (f ∷ fs)) p

-- SubmitFromSendStream, and the stream that it leaves.
unfoldable pub submit_from_send_stream : Call → ℕ → ℕ → Provider → Packer → Submitted × Provider
submit_from_send_stream c pid sid no_session p =
    (record { result = err (path_not_exists pid); packer = p; writes = [] }, no_session)
submit_from_send_stream c pid sid no_provider p =
    (record { result = ok tt; packer = p; writes = [] }, no_provider)
submit_from_send_stream c pid sid (provider s) p =
    let (frames, s') = pop_frames p.max_packet_size s in
    (
      after_collection c pid sid (has_buffered s') p (collect_frames p.max_packet_size 0 frames),
      provider s',
    )

abbrev forget : ℕ → Packer → Packer
forget sid p = record p { buffered_streams = delete sid p.buffered_streams }

-- What the flush goroutine does after its attempt.
unfoldable pub after_flush : ℕ → Provider → Packer → Packer
after_flush sid no_session p = forget sid p
after_flush sid no_provider p = forget sid p
after_flush sid (provider s) p = if has_buffered s then p else forget sid p

-- One stream of the flush goroutine's round; errors are ignored.
unfoldable pub flush_stream : Call → ℕ → ℕ → Provider → Packer → List Write × (Packer × Provider)
flush_stream c pid sid src p =
    let (s, src') = submit_from_send_stream c pid sid src p in
    if has pid p.paths
    then (s.writes, (after_flush sid src' s.packer, src'))
    else ([], (forget sid p, src))
