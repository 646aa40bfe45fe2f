-- ===== src/Transport/Packer/Tests.antt =====
-- The theorems on the Packer at concrete data.
use kwik.Prelude.{replicate, ℕ, ◌≡◌, refl, List, [], ◌∷◌, arith, All, none, some, false}
use kwik.Prelude.Map.{lookup}
use kwik.Protocol.Bytes.{be_bytes}
use kwik.Protocol.Reader.{write_var_int}
use kwik.Protocol.Errors.{ok, err, frame_too_large, other}
use kwik.Protocol.Frame.{
  StreamFrame, stream, ping, slice_size, serialize, serialize_stream, serialize_body,
}
use kwik.Protocol.Packet.{serialize_packet, serialize_header, serialize_frames, deserialize_packet}
use kwik.Protocol.Packet.RoundTrip.{framed}
use kwik.Stream.Send.{SendStream, new_send_stream}
use kwik.Transport.Packer.{
  Packer, PendingPacket, Call, new_packer, enc_size, next_seq, numbered, pending_of, queue_of,
  submit_frame,
}
use kwik.Transport.Packer.Retransmit.{no_stream}
use kwik.Transport.Packer.Flush.{provider, submit_from_send_stream}
use kwik.Transport.Packer.Submit.{submit_all, submit_all_poisoned}
use kwik.Transport.Packer.Delivery.{submit_frame-deserialize_packet}
use kwik.Transport.Packer.Steps
use kwik.Transport.Packer.Steps.{
  Step, submits, acked, registers, unregisters, cancels, collects, SoundResult,
  run-new_packer-IsSound,
}
use kwik.Transport.Packer.Retries.{Round, retry_all, retry_all_ends, no_stream_reply, write_of}
use kwik.Transport.Packer.Losses.{first_frame, submit_from_send_stream_drops}

abbrev call : Call
call = record { quic_stream = 0; now = 7; reply = none }

-- A packer with one registered path.
abbrev packer : ℕ → Packer
packer max = record (new_packer max) { paths = (1, tt) ∷ [] }

abbrev nine : List ℕ
nine = 1 ∷ 2 ∷ 3 ∷ 4 ∷ 5 ∷ 6 ∷ 7 ∷ 8 ∷ 9 ∷ []

abbrev frame : StreamFrame
frame = record { stream_id = 4; offset = 0; fin = false; payload = nine }

submit_all_poisoned_example :
    let log = submit_all 1 ((call, stream frame) ∷ (call, ping) ∷ (call, ping) ∷ []) (packer 29) in
    All (λ r. r ≡ err (frame_too_large (enc_size frame) 29)) log.results × (log.writes ≡ [])
unfolding enc_size lookup new_packer
submit_all_poisoned_example =
    submit_all_poisoned 1 call frame ((call, ping) ∷ (call, ping) ∷ []) (packer 29) refl
      (omega arith)

submit_frame-deserialize_packet_example :
    let s = submit_frame call 1 (stream frame) (packer 1048576) in
    (bytes : List ℕ) × (packet : PendingPacket) × (s.writes
      ≡ record { path = 1; carrier = 0; bytes = bytes } ∷ [])
    × (deserialize_packet 1000 bytes ≡ ok (numbered 1 (stream frame ∷ [])))
    × (lookup 1 (pending_of 1 s.packer) ≡ some packet)
    × (framed packet.body ≡ bytes)
    × (s.result ≡ ok tt)
    × (queue_of 1 s.packer ≡ [])
unfolding slice_size enc_size lookup new_packer next_seq serialize_packet serialize_header
    serialize_frames serialize serialize_body serialize_stream write_var_int be_bytes
submit_frame-deserialize_packet_example =
    submit_frame-deserialize_packet 1000 call 1 (stream frame) (packer 1048576) refl refl
      (omega arith) (omega arith) (omega arith) (omega arith, omega arith)

run-new_packer-IsSound_example : SoundResult (
    Steps.run 10 (new_packer 100) (
      registers 1
      ∷ submits call 1 ping
      ∷ collects (λ seq. 500) 1
      ∷ acked 1 (record { smallest = 1; largest = 3 } ∷ [])
      ∷ unregisters 1
      ∷ []))
run-new_packer-IsSound_example =
    run-new_packer-IsSound 9 100
      (registers 1
        ∷ submits call 1 ping
        ∷ collects (λ seq. 500) 1
        ∷ acked 1 (record { smallest = 1; largest = 3 } ∷ [])
        ∷ unregisters 1
        ∷ [])
      (tt, (tt, (tt, (((omega arith, tt), (omega arith, tt)), (tt, tt)))))

abbrev tried : PendingPacket
tried = record {
  body = nine;
  pkt = none;
  carrier = 0;
  attempts = 10;
  next_retry = 100;
  frame_info = [];
}

abbrev rounds : List Round
rounds =
    record { now = 100; done = 101; nanos = 5; reply = none }
    ∷ record { now = 4000; done = 4001; nanos = 6; reply = some (other 1) }
    ∷ []

abbrev waiting : Packer
waiting = record (packer 100) { pending = (1, (3, tried) ∷ []) ∷ [] }

retry_all_ends_example :
    ((retry_all 1 rounds waiting).0 ≡ replicate 2 (write_of 1 tried))
    × (lookup 1 (retry_all 1 rounds waiting).1.pending ≡ some [])
unfolding lookup no_stream_reply no_stream
retry_all_ends_example =
    retry_all_ends 1 3 100 tried waiting rounds refl refl (omega arith)
      (omega arith, refl, (omega arith, refl, tt)) (omega arith) (omega arith)

abbrev two_writes : SendStream
two_writes = record (new_send_stream 4) { send_buffer = nine ∷ nine ∷ [] }

submit_from_send_stream_drops_example :
    (s' : SendStream) × ((submit_from_send_stream call 1 4 (provider two_writes) (packer 59)).1
      ≡ provider s')
    × (s'.send_buffer ≡ [])
    × ((submit_from_send_stream call 1 4 (provider two_writes) (packer 59)).0.result ≡ ok tt)
    × ((submit_from_send_stream call 1 4 (provider two_writes) (packer 59)).0.writes
        ≡ record {
          path = 1;
          carrier = 4;
          bytes = framed (
              serialize_packet (
                numbered
                  (next_seq 1 (packer 59))
                  (stream (first_frame 59 two_writes nine nine (nine ∷ [])) ∷ [])));
        }
          ∷ [])
    × ((submit_from_send_stream call 1 4 (provider s') (packer 59)).0.writes ≡ [])
unfolding new_packer lookup next_seq serialize_packet serialize_header serialize_frames serialize
    serialize_body serialize_stream write_var_int be_bytes
submit_from_send_stream_drops_example =
    submit_from_send_stream_drops call call 1 4 two_writes (packer 59) (packer 59) nine nine refl
      (omega arith) (omega arith) (omega arith) (omega arith) (omega arith) refl refl
