-- ===== src/Transport/Multiplexer/Arrival.antt =====
-- A packet from its bytes to the stream: internal/protocol/packet.go, the multiplexer and stream.go.
use kwik.Prelude.{
  refl, ℕ, ◌≡◌, ◌<◌, ◌^◌, ap, ◌∙◌, List, [], ◌∷◌, some, Bool, false, ◌==◌, ==_self, if_true,
  if_false, arith, length, IsU64,
}
use kwik.Prelude.Map.{lookup}
use kwik.Protocol.Errors.{ok}
use kwik.Protocol.Bounds.{IsParsed}
use kwik.Protocol.Frame.{AckRange, Frame, StreamFrame, stream}
use kwik.Protocol.Packet.{
  Packet, serialize_packet, deserialize_packet, deserialize_body, deserialize_header, strip_length,
  header_type_long,
}
use kwik.Protocol.Packet.RoundTrip.{framed, deserialize_packet-single}
use kwik.Protocol.Reader.{read_byte}
use kwik.Stream.Recv.Reorder.{deliver, deliver_all}
use kwik.Streams.StreamImpl.{StreamImpl}
use kwik.Transport.Multiplexer.{
  Multiplexer, push_packet, push_parsed, push_frames, record_packet, enqueue_ack, take_batch,
  process_batch,
}
use kwik.Transport.Multiplexer.Delivery.{frames_for, give_all, process_batch-Given}

deserialize_packet-ne-nil :
    (max_alloc : ℕ) (p : Packet) → deserialize_packet max_alloc [] ≡ ok p → ⊥
unfolding deserialize_packet deserialize_body deserialize_header strip_length read_byte
deserialize_packet-ne-nil max_alloc p h = cc

-- A packet of one STREAM frame.
abbrev pub one_frame : ℕ → StreamFrame → Packet
one_frame seq f = record {
  header = record { header_type = header_type_long; packet_num = seq };
  payload = stream f ∷ [];
}

module _ {ℓ} {P : Type ℓ} where
  enqueue_ack-stream_manager :
      (req : ℕ × Bool) (m : Multiplexer P) → (enqueue_ack req m).stream_manager ≡ m.stream_manager
  unfolding enqueue_ack
  enqueue_ack-stream_manager req m = ground arith

  record_packet-stream_manager :
      (pid seq : ℕ) (m : Multiplexer P)
      → (record_packet pid seq m).stream_manager ≡ m.stream_manager
  unfolding record_packet enqueue_ack
  record_packet-stream_manager pid seq m = ground arith

  module _ {κ} {B : Type κ} (on_ack : ℕ → List AckRange → B → B)
      (on_control : ℕ → Frame → Multiplexer P → B → Multiplexer P × B) where
    push_packet-ok :
        (max_alloc pid : ℕ) (pkt : List ℕ) (p : Packet) (m : Multiplexer P) (b : B)
        → deserialize_packet max_alloc pkt ≡ ok p
        → m.is_closed ≡ false
        → push_packet on_ack on_control max_alloc pid pkt m b ≡ (
          ok tt,
          push_frames on_ack on_control pid p.header.packet_num [] p.payload
              (record_packet pid p.header.packet_num m)
              b,
        )
    unfolding push_packet push_parsed
    push_packet-ok max_alloc pid [] p m b h open_m =
        absurd (deserialize_packet-ne-nil max_alloc p h)
    push_packet-ok max_alloc pid (c ∷ pkt) p m b h open_m =
        if_false m.is_closed _ _ open_m ∙ ap (λ r. push_parsed on_ack on_control pid r m b) h

    push_frames-single :
        (pid seq : ℕ) (f : StreamFrame) (m : Multiplexer P) (b : B)
        → push_frames on_ack on_control pid seq [] (stream f ∷ []) m b
          ≡ (process_batch pid seq (f ∷ []) m, b)
    unfolding push_frames take_batch process_batch
    push_frames-single pid seq f m b = refl

    -- The bytes that the packer writes for a packet of one well-formed STREAM frame, whose slice
    -- can be made and which fits the four bytes of its length, come to a multiplexer that is open
    -- and whose session has the stream: PushPacket reports no error, the receiving half of the
    -- stream has handled the frame, and nothing else of the stream has changed.
    pub push_packet-serialize_packet :
        (max_alloc pid seq : ℕ) (f : StreamFrame) (s : StreamImpl P) (m : Multiplexer P) (b : B)
        → IsU64 seq
        → IsParsed max_alloc (stream f)
        → length (serialize_packet (one_frame seq f)) < 2 ^ 32
        → m.is_closed ≡ false
        → lookup f.stream_id m.stream_manager.streams ≡ some s
        → let r =
            push_packet on_ack on_control max_alloc pid
              (framed (serialize_packet (one_frame seq f)))
              m
              b in
          (r.0 ≡ ok tt)
          × (lookup f.stream_id r.1.0.stream_manager.streams
              ≡ some (record s { recv = deliver s.recv f }))
    unfolding frames_for deliver_all give_all
    push_packet-serialize_packet max_alloc pid seq f s m b hn parsed short open_m found =
        let p = one_frame seq f in
        let arrived : deserialize_packet max_alloc (framed (serialize_packet p)) ≡ ok p =
          deserialize_packet-single max_alloc p hn (parsed, tt) (omega arith) short in
        let pushed =
          push_packet-ok max_alloc pid (framed (serialize_packet p)) p m b arrived open_m in
        let recorded : Multiplexer P = record_packet pid seq m in
        let there : lookup f.stream_id recorded.stream_manager.streams ≡ some s =
          ap (λ sm. lookup f.stream_id sm.streams) (record_packet-stream_manager pid seq m)
          ∙ found in
        let delivered = process_batch-Given pid seq f.stream_id (f ∷ []) recorded in
        let own : frames_for f.stream_id (f ∷ []) ≡ f ∷ [] =
          if_true (f.stream_id == f.stream_id) (f ∷ []) [] (==_self f.stream_id) in
        (
          ap (λ r. r.0) pushed,
          ap (λ r. lookup f.stream_id r.1.0.stream_manager.streams) pushed
              ∙ ap (λ r. lookup f.stream_id r.0.stream_manager.streams)
                  (push_frames-single pid seq f recorded b)
              ∙ delivered.stream
              ∙ ap (give_all f.stream_id (f ∷ [])) there
              ∙ ap (λ fs. some (record s { recv = deliver_all s.recv fs })) own,
        )
