-- ===== src/Transport/Multiplexer.antt =====
-- internal/transport/multiplexer.go: what becomes of a packet that has arrived. `P` is the type of a
-- path object, and `B` that of what the packer and the path keep, which are reached by two
-- functions: OnAck, which stays in the packer, and HandleControlFrame of the registered path, which
-- may also change the stream manager of the multiplexer. PushPacket runs with no other goroutine in
-- between; above all, no stream comes or goes between the two lookups for a STREAM frame.
pub mod Delivery
pub mod Arrival
mod Tests
use kwik.Prelude.{
  ℕ, ◌+◌, List, [], ◌∷◌, ◌++◌, Bool, true, false, Option, none, some, ltb, leb, if◌then◌else◌,
  length,
}
use kwik.Prelude.Map.{Map, lookup, insert, delete, or_else}
use kwik.Protocol.Errors.{Error, Result, ok, err, panic, other}
use kwik.Protocol.Frame.{AckRange, Frame, StreamFrame, stream, ack}
use kwik.Protocol.Packet.{Packet, deserialize_packet}
use kwik.Stream.Recv.{RecvStream, handle_frame}
use kwik.Streams.StreamImpl.{StreamImpl}
use kwik.Streams.Manager.{StreamManager, get_stream, get_stream_frame_handler}
use kwik.Transport.AckSender.{Received, record_received_packet}
use kwik.Transport.Reception.{
  ReceptionBuffer, new_reception_buffer, push_stream_frame, pop_all_frames,
}

-- The requests of the queue are paths, with whether they are urgent.
pub record Multiplexer {ℓ} (P : Type ℓ) : Type ℓ where
  pub stream_manager : StreamManager P
  pub reception_buffers : Map ReceptionBuffer
  pub received : Received
  pub last_seen_path_for_stream : Map ℕ
  pub last_seen_packet_seq_for_stream : Map ℕ
  pub ack_queue : List (ℕ × Bool)
  pub is_closed : Bool
  pub has_notifier : Bool
  -- the calls of NotifyDataAvailable
  pub notified : List ℕ

abbrev pub batch_processing_size : ℕ
batch_processing_size = 32

abbrev pub ack_queue_size : ℕ
ack_queue_size = 100

-- HandleStreamFrame: two rounds of its loop are enough in every state.
unfoldable pub receive : RecvStream → StreamFrame → RecvStream
receive r f = or_else r (handle_frame 2 r f)

abbrev pub multiplexer_closed : Error
multiplexer_closed = other 4

module _ {ℓ} {P : Type ℓ} where
  unfoldable pub new_multiplexer : StreamManager P → Multiplexer P
  new_multiplexer sm = record {
    stream_manager = sm;
    reception_buffers = [];
    received = [];
    last_seen_path_for_stream = [];
    last_seen_packet_seq_for_stream = [];
    ack_queue = [];
    is_closed = false;
    has_notifier = false;
    notified = [];
  }

  -- A send on the queue that is given up when it is full.
  unfoldable pub enqueue_ack : ℕ × Bool → Multiplexer P → Multiplexer P
  enqueue_ack req m =
      if ltb (length m.ack_queue) ack_queue_size
      then record m { ack_queue = m.ack_queue ++ (req ∷ []) }
      else m

  -- recordReceivedPacket with its request for an urgent ACK.
  unfoldable pub record_packet : ℕ → ℕ → Multiplexer P → Multiplexer P
  record_packet pid seq m =
      let (urgent, received) = record_received_packet pid seq m.received in
      let recorded = record m { received = received } in
      if m.is_closed then m else if urgent then enqueue_ack (pid, true) recorded else recorded

  -- sendPeriodicAcks, over the paths of the record.
  unfoldable pub enqueue_all : Received → Multiplexer P → Multiplexer P
  enqueue_all [] m = m
  enqueue_all (entry ∷ rest) m = enqueue_all rest (enqueue_ack (entry.0, false) m)

  unfoldable pub send_periodic_acks : Multiplexer P → Multiplexer P
  send_periodic_acks m = enqueue_all m.received m

  -- The stream behind a handler, which is the receiving half itself.
  unfoldable pub store_recv : ℕ → RecvStream → StreamManager P → StreamManager P
  store_recv sid r sm = elim (get_stream sid sm) [
    | none ↦ sm
    | some s ↦ record sm { streams = insert sid (record s { recv = r }) sm.streams }
  ]

  -- getOrCreateReceptionBuffer with the push behind it.
  unfoldable pub push_to_buffer : StreamFrame → Multiplexer P → Multiplexer P
  push_to_buffer f m =
      let buffer =
        or_else (new_reception_buffer f.stream_id) (lookup f.stream_id m.reception_buffers) in
      record m {
        reception_buffers = insert f.stream_id (push_stream_frame f buffer) m.reception_buffers;
        notified = if m.has_notifier then m.notified ++ (f.stream_id ∷ []) else m.notified;
      }

  unfoldable pub without_handler :
      Option (StreamImpl P) → StreamFrame → Multiplexer P → Multiplexer P
  without_handler none f m = m
  without_handler (some s) f m = push_to_buffer f m

  unfoldable pub hand_over : Option RecvStream → StreamFrame → Multiplexer P → Multiplexer P
  hand_over (some r) f m = record m {
    stream_manager = store_recv f.stream_id (receive r f) m.stream_manager;
  }
  hand_over none f m = without_handler (get_stream f.stream_id m.stream_manager) f m

  -- One frame of processBatchStreamFrames, where nothing happens between its two lookups: the one
  -- for the handler, and the one of hand_over, which looks into the state that it is given.
  unfoldable pub process_stream_frame : ℕ → ℕ → StreamFrame → Multiplexer P → Multiplexer P
  process_stream_frame pid seq f m =
      hand_over (get_stream_frame_handler f.stream_id m.stream_manager) f (record m {
        last_seen_path_for_stream = insert f.stream_id pid m.last_seen_path_for_stream;
        last_seen_packet_seq_for_stream = insert f.stream_id seq m.last_seen_packet_seq_for_stream;
      })

  unfoldable pub process_batch : ℕ → ℕ → List StreamFrame → Multiplexer P → Multiplexer P
  process_batch pid seq [] m = m
  process_batch pid seq (f ∷ fs) m = process_batch pid seq fs (process_stream_frame pid seq f m)

  -- A batch that is full is processed.
  unfoldable pub take_batch :
      ℕ → ℕ → List StreamFrame → Multiplexer P → List StreamFrame × Multiplexer P
  take_batch pid seq batch m =
      if leb batch_processing_size (length batch)
      then ([], process_batch pid seq batch m)
      else (batch, m)

  unfoldable pub pop_frames_for_stream :
      ℕ → Multiplexer P → Option (List StreamFrame × ReceptionBuffer)
  pop_frames_for_stream sid m = elim (lookup sid m.reception_buffers) [
    | none ↦ none
    | some buffer ↦ pop_all_frames buffer
  ]

  unfoldable pub cleanup_stream_buffer : ℕ → Multiplexer P → Multiplexer P
  cleanup_stream_buffer sid m =
      if m.is_closed then m else record m { reception_buffers = delete sid m.reception_buffers }

  -- Close; an empty map stands for nil, as nothing is added to it afterwards.
  unfoldable pub close_multiplexer : Multiplexer P → Multiplexer P
  close_multiplexer m = if m.is_closed then m else record m {
    is_closed = true;
    reception_buffers = [];
    received = [];
    last_seen_path_for_stream = [];
    last_seen_packet_seq_for_stream = [];
  }

  module _ {κ} {B : Type κ} (on_ack : ℕ → List AckRange → B → B)
      (on_control : ℕ → Frame → Multiplexer P → B → Multiplexer P × B) where
    -- The loop of PushPacket over the frames, with the batch that it has collected.
    unfoldable pub push_frames :
        ℕ → ℕ → List StreamFrame → List Frame → Multiplexer P → B → Multiplexer P × B
    push_frames pid seq batch [] m b = (process_batch pid seq batch m, b)
    push_frames pid seq batch (ack f ∷ fs) m b =
        push_frames pid seq batch fs m (on_ack pid f.ack_ranges b)
    push_frames pid seq batch (stream f ∷ fs) m b =
        let (left, m') = take_batch pid seq (batch ++ (f ∷ [])) m in
        push_frames pid seq left fs m' b
    push_frames pid seq batch (f ∷ fs) m b =
        let (m', b') = on_control pid f m b in push_frames pid seq batch fs m' b'

    unfoldable pub push_parsed :
        ℕ → Result Packet → Multiplexer P → B → Result (Unit {0}) × (Multiplexer P × B)
    push_parsed pid panic m b = (panic, (m, b))
    push_parsed pid (err e) m b = (err e, (m, b))
    push_parsed pid (ok packet) m b = (
      ok tt,
      push_frames pid packet.header.packet_num [] packet.payload
          (record_packet pid packet.header.packet_num m) b,
    )

    -- PushPacket
    unfoldable pub push_packet :
        ℕ → ℕ → List ℕ → Multiplexer P → B → Result (Unit {0}) × (Multiplexer P × B)
    push_packet max_alloc pid [] m b =
        (if m.is_closed then err multiplexer_closed else ok tt, (m, b))
    push_packet max_alloc pid (c ∷ pkt) m b =
        let pushed = push_parsed pid (deserialize_packet max_alloc (c ∷ pkt)) m b in
        if m.is_closed then (err multiplexer_closed, (m, b)) else pushed
