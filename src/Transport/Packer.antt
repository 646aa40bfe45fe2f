-- ===== src/Transport/Packer.antt =====
-- internal/transport/packer.go: the queues of a Packer, its numbered packets, and the packets that
-- wait for their acknowledgement. A call that takes the mutex several times is one step here. The
-- map firstEnqueueTime is left out, since nothing is ever put into it.
pub mod Registry
pub mod Flush
pub mod Retransmit
pub mod Submit
pub mod Delivery
pub mod Invariant
pub mod Rounds
pub mod Operations
pub mod Steps
pub mod Retries
pub mod Losses
mod Tests
use kwik.Prelude.{
  ℕ, suc, ◌+◌, List, [], ◌∷◌, ◌++◌, Bool, true, false, Option, none, some, ltb, ◌==◌, ◌||◌,
  if◌then◌else◌, length, drop, add64,
}
use kwik.Prelude.Map.{Map, lookup, insert, delete, has, get_or}
use kwik.Protocol.Errors.{Error, Result, ok, err, panic, frame_too_large, path_not_exists, ◌>>=◌}
use kwik.Protocol.Bytes.{be_bytes}
use kwik.Protocol.Frame.{AckRange, Frame, stream, ack, StreamFrame}
use kwik.Protocol.Packet.{Packet, header_type_long, serialize_packet}
use kwik.Transport.Acks.{AckState, on_ack}

pub record FrameMetadata : Type 0 where
  pub stream_id : ℕ
  pub offset : ℕ
  pub size : ℕ

pub record PendingPacket : Type 0 where
  pub body : List ℕ
  pub pkt : Option Packet
  pub carrier : ℕ
  pub attempts : ℕ
  -- in milliseconds
  pub next_retry : ℕ
  pub frame_info : List FrameMetadata

pub record Packer : Type 0 where
  pub queues : Map (List Frame)
  pub max_packet_size : ℕ
  pub next_packet_seq : Map ℕ
  pub pending : Map (Map PendingPacket)
  -- the registered paths; all that is asked of a path is to write
  pub paths : Map (Unit {0})
  pub buffered_streams : Map ℕ
  pub sent_count : ℕ
  pub resent_count : ℕ
  pub acked_count : ℕ
  pub dropped_count : ℕ

abbrev pub max_attempts : ℕ
max_attempts = 12

abbrev pub base_backoff_ms : ℕ
base_backoff_ms = 200

abbrev pub max_backoff_ms : ℕ
max_backoff_ms = 3000

unfoldable pub new_packer : ℕ → Packer
new_packer max_packet_size = record {
  queues = [];
  max_packet_size = max_packet_size;
  next_packet_seq = [];
  pending = [];
  paths = [];
  buffered_streams = [];
  sent_count = 0;
  resent_count = 0;
  acked_count = 0;
  dropped_count = 0;
}

-- What the surroundings of a call decide: the QUIC stream that the path names, the time, and what
-- WriteStream answers, where `none` is a nil error.
pub record Call : Type 0 where
  pub quic_stream : ℕ
  pub now : ℕ
  pub reply : Option Error

pub record Write : Type 0 where
  pub path : ℕ
  pub carrier : ℕ
  pub bytes : List ℕ

-- How a call ends, the state that it leaves, and what it has written.
pub record Submitted : Type 0 where
  pub result : Result (Unit {0})
  pub packer : Packer
  pub writes : List Write

-- The estimate of a STREAM frame's encoded size.
unfoldable pub enc_size : StreamFrame → ℕ
enc_size f = 1 + 8 + 8 + 4 + length f.payload

-- The switch in the loop of SubmitFrame: the size with the frame. Where the size would exceed the
-- maximum, `break` leaves the switch, and the loop goes on to append the frame.
unfoldable pub add_size : ℕ → ℕ → Frame → Result ℕ
add_size max size (stream f) =
    if ltb max (enc_size f)
    then err (frame_too_large (enc_size f) max)
    else if ltb max (size + enc_size f)
    then ok size
    else ok (size + enc_size f)
add_size max size (ack f) = ok (size + 32)
add_size max size _ = ok (size + 16)

-- The loop of SubmitFrame.
unfoldable pub assemble : ℕ → ℕ → List Frame → Result (List Frame)
assemble max size [] = ok []
assemble max size (f ∷ fs) = do
  size' ← add_size max size f
  rest ← assemble max size' fs
  ok (f ∷ rest)

unfoldable pub metadata : Frame → FrameMetadata
metadata (stream f) = record { stream_id = f.stream_id; offset = f.offset; size = length f.payload }
metadata _ = record { stream_id = 0; offset = 0; size = 0 }

unfoldable pub metadata_all : List Frame → List FrameMetadata
metadata_all [] = []
metadata_all (f ∷ fs) = metadata f ∷ metadata_all fs

abbrev pub pending_of : ℕ → Packer → Map PendingPacket
pending_of pid p = get_or pid [] p.pending

-- p.pending[pid][seq] = packet, in a map that is made if there is none
unfoldable pub add_pending : ℕ → ℕ → PendingPacket → Packer → Packer
add_pending pid seq packet p = record p {
  pending = insert pid (insert seq packet (pending_of pid p)) p.pending;
}

-- The number of the next packet on a path.
unfoldable pub next_seq : ℕ → Packer → ℕ
next_seq pid p = add64 (get_or pid 0 p.next_packet_seq) 1

abbrev pub numbered : ℕ → List Frame → Packet
numbered seq frames = record {
  header = record { header_type = header_type_long; packet_num = seq };
  payload = frames;
}

-- From the check of the registered paths on: the packet becomes pending and is written.
unfoldable pub send_body : Call → ℕ → ℕ → PendingPacket → Packer → Submitted
send_body c pid seq packet p =
    if has pid p.paths
    then record {
      result = elim c.reply [ none ↦ ok tt | some e ↦ err e ];
      packer = add_pending pid seq packet p;
      writes =
          record {
            path = pid;
            carrier = packet.carrier;
            bytes = be_bytes 4 (length packet.body) ++ packet.body;
          }
          ∷ [];
    }
    else record { result = err (path_not_exists pid); packer = p; writes = [] }

abbrev pub first_attempt : Call → ℕ → List ℕ → Option Packet → List Frame → PendingPacket
first_attempt c carrier body pkt frames = record {
  body = body;
  pkt = pkt;
  carrier = carrier;
  attempts = 1;
  next_retry = c.now + base_backoff_ms;
  frame_info = metadata_all frames;
}

-- SubmitFrame, once some frames have been taken off the queue.
unfoldable pub send_assembled : Call → ℕ → List Frame → Packer → Submitted
send_assembled c pid frames p =
    let seq = next_seq pid p in
    let p' = record p { next_packet_seq = insert pid seq p.next_packet_seq } in
    let body = serialize_packet (numbered seq frames) in
    if ltb (length body) 8
    then record { result = ok tt; packer = p'; writes = [] }
    else if ltb p.max_packet_size (length body)
    then record {
      result = err (frame_too_large (length body) p.max_packet_size);
      packer = p';
      writes = [];
    }
    else send_body c pid seq (first_attempt c c.quic_stream body none frames) p'

-- SubmitFrame behind its loop. `p` has the new frame in its queue, which is `frames`.
unfoldable pub after_assembly : Call → ℕ → List Frame → Packer → Result (List Frame) → Submitted
after_assembly c pid frames p panic = record { result = panic; packer = p; writes = [] }
after_assembly c pid frames p (err e) = record { result = err e; packer = p; writes = [] }
after_assembly c pid frames p (ok []) = record { result = ok tt; packer = p; writes = [] }
after_assembly c pid frames p (ok (f ∷ fs)) =
    send_assembled c pid (f ∷ fs)
      (record p { queues = insert pid (drop (length (f ∷ fs)) frames) p.queues })

abbrev pub queue_of : ℕ → Packer → List Frame
queue_of pid p = get_or pid [] p.queues

unfoldable pub submit_frame : Call → ℕ → Frame → Packer → Submitted
submit_frame c pid nf p =
    let frames = queue_of pid p ++ (nf ∷ []) in
    after_assembly c pid frames (record p { queues = insert pid frames p.queues })
      (assemble p.max_packet_size 0 frames)
