-- ===== src/Transport/Multiplexer/Tests.antt =====
-- The theorems on the multiplexer at concrete data.
use kwik.Prelude.{ℕ, length, ◌<◌, ◌^◌, ◌≡◌, refl, List, [], ◌∷◌, some, arith, false}
use kwik.Prelude.Map.{lookup}
use kwik.Protocol.Errors.{ok}
use kwik.Protocol.Frame.{
  AckRange, Frame, StreamFrame, stream, ping, open_stream, slice_size, serialize, serialize_body,
  serialize_stream, frame_type,
}
use kwik.Protocol.Packet.{serialize_packet, serialize_header, serialize_frames}
use kwik.Protocol.Bytes.{be_bytes}
use kwik.Protocol.Reader.{write_var_int}
use kwik.Protocol.Packet.RoundTrip.{framed}
use kwik.Stream.Recv.Reorder.{deliver, deliver_all}
use kwik.Streams.StreamImpl.{StreamImpl, new_stream}
use kwik.Streams.Manager.{StreamManager}
use kwik.Transport.Multiplexer.{Multiplexer, new_multiplexer, push_frames, push_packet}
use kwik.Transport.Multiplexer.Delivery.{streams_of, frames_for, push_frames-deliver_all}
use kwik.Transport.Multiplexer.Arrival.{one_frame, push_packet-serialize_packet}
use kwik.Transport.PathImpl.{PathImpl}
use kwik.Transport.PathImpl.Control.{handle_control_frame}
use kwik.Transport.PathImpl.Lifecycle.{initial_path}

-- ACK frames concern no path here, and control frames come at the time 100.
abbrev on_ack : ℕ → List AckRange → PathImpl → PathImpl
on_ack pid ranges p = p

abbrev on_control : ℕ → Frame → Multiplexer ℕ → PathImpl → Multiplexer ℕ × PathImpl
on_control pid f m p = (m, handle_control_frame 100 f p)

abbrev stream_4 : StreamImpl ℕ
stream_4 = new_stream 4

abbrev manager : StreamManager ℕ
manager = record { streams = (4, stream_4) ∷ []; next_stream_id = 5 }

abbrev part : ℕ → ℕ → List ℕ → StreamFrame
part sid offset bytes = record { stream_id = sid; offset = offset; fin = false; payload = bytes }

abbrev frames : List Frame
frames =
    stream (part 4 0 (1 ∷ 2 ∷ []))
    ∷ ping
    ∷ stream (part 6 0 (9 ∷ []))
    ∷ open_stream 8
    ∷ stream (part 4 2 (3 ∷ []))
    ∷ []

push_frames-deliver_all_example :
    let m = new_multiplexer manager in
    let m' = (push_frames on_ack on_control 1 5 [] frames m (initial_path 1 false)).0 in
    (lookup 4 m'.stream_manager.streams
      ≡ some
          (record stream_4 { recv = deliver_all stream_4.recv (frames_for 4 (streams_of frames)) }))
    × (m'.reception_buffers ≡ m.reception_buffers)
unfolding new_multiplexer lookup
push_frames-deliver_all_example =
    push_frames-deliver_all on_ack on_control 4
      (λ pid f m b. record { stream = refl; buffers = refl }) 1 5 frames stream_4
      (new_multiplexer manager) (initial_path 1 false) refl

hello_size : length (serialize_packet (one_frame 5 (part 4 0 (1 ∷ 2 ∷ [])))) < 2 ^ 32
unfolding serialize_packet serialize_header serialize_frames serialize serialize_body
    serialize_stream write_var_int frame_type be_bytes
hello_size = omega arith

push_packet-serialize_packet_example :
    let f = part 4 0 (1 ∷ 2 ∷ []) in
    let r =
      push_packet on_ack on_control 1000 1
        (framed (serialize_packet (one_frame 5 f)))
        (new_multiplexer manager)
        (initial_path 1 false) in
    (r.0 ≡ ok tt)
    × (lookup 4 r.1.0.stream_manager.streams
        ≡ some (record stream_4 { recv = deliver stream_4.recv f }))
unfolding new_multiplexer lookup slice_size
push_packet-serialize_packet_example =
    push_packet-serialize_packet on_ack on_control 1000 1 5 (part 4 0 (1 ∷ 2 ∷ [])) stream_4
      (new_multiplexer manager) (initial_path 1 false) (omega arith) (omega arith) hello_size refl
      refl
