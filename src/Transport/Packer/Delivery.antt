-- ===== src/Transport/Packer/Delivery.antt =====
-- internal/transport/packer.go: what leaves the queue of a path, and whether it arrives.
use kwik.Prelude.{
  ℕ, ◌^◌, ◌≤◌, ◌<◌, ◌≡◌, refl, sym, subst, List, [], ◌∷◌, ◌++◌, true, Option, none, some, ==_self,
  length, length-append, arith, All, IsU64,
}
use kwik.Prelude.Map.{lookup, insert, has, lookup-insert}
use kwik.Protocol.Errors.{Error, Result, ok, err, frame_too_large}
use kwik.Protocol.Reader.{write_var_int, length-write_var_int}
use kwik.Protocol.Bounds.{IsParsed}
use kwik.Protocol.Frame.{Frame}
use kwik.Protocol.Packet.{
  Packet, serialize_packet, serialize_header, serialize_frames, deserialize_packet,
}
use kwik.Protocol.Packet.RoundTrip.{framed, deserialize_packet-single}
use kwik.Transport.Packer.{
  PendingPacket, Packer, Call, pending_of, next_seq, numbered, send_body, first_attempt,
  send_assembled, queue_of, submit_frame, add_pending,
}
use kwik.Transport.Packer.Submit.{FitsAlone, submit_frame-send_assembled, queue_of-insert}

-- A packet is never shorter than its header and its count.
length-serialize_packet : (p : Packet) → 17 ≤ length (serialize_packet p)
unfolding serialize_packet serialize_header
length-serialize_packet p = omega (
  arith,
  length-append (write_var_int p.header.packet_num)
      (write_var_int (length p.payload) ++ serialize_frames p.payload),
  length-append (write_var_int (length p.payload)) (serialize_frames p.payload),
  length-write_var_int p.header.packet_num,
  length-write_var_int (length p.payload),
)

next_seq-IsU64 : (pid : ℕ) (p : Packer) → IsU64 (next_seq pid p)
unfolding next_seq
next_seq-IsU64 pid p = omega arith

lookup-add_pending :
    (pid seq : ℕ) (packet : PendingPacket) (p : Packer)
    → lookup seq (pending_of pid (add_pending pid seq packet p)) ≡ some packet
unfolding add_pending
lookup-add_pending pid seq packet p =
    rw
      (
        lookup-insert pid pid (insert seq packet (pending_of pid p)) p.pending,
        ==_self pid,
        lookup-insert seq seq packet (pending_of pid p),
        ==_self seq,
      )
      refl

abbrev pub body_for : ℕ → List Frame → Packer → List ℕ
body_for pid frames p = serialize_packet (numbered (next_seq pid p) frames)

abbrev pub outcome : Option Error → Result (Unit {0})
outcome none = ok tt
outcome (some e) = err e

abbrev counted : ℕ → Packer → Packer
counted pid p = record p { next_packet_seq = insert pid (next_seq pid p) p.next_packet_seq }

module _ (c : Call) (pid : ℕ) (fs : List Frame) (p : Packer) where
  abbrev body : List ℕ
  body = body_for pid fs p

  abbrev packet : PendingPacket
  packet = first_attempt c c.quic_stream body none fs

  send_assembled_too_large :
      p.max_packet_size < length body
      → send_assembled c pid fs p ≡ record {
        result = err (frame_too_large (length body) p.max_packet_size);
        packer = counted pid p;
        writes = [];
      }
  unfolding send_assembled
  send_assembled_too_large big =
      let n = length-serialize_packet (numbered (next_seq pid p) fs) in ground (arith, n)

  send_assembled_sent :
      has pid p.paths ≡ true
      → length body ≤ p.max_packet_size
      → send_assembled c pid fs p ≡ record {
        result = outcome c.reply;
        packer = add_pending pid (next_seq pid p) packet (counted pid p);
        writes = record { path = pid; carrier = c.quic_stream; bytes = framed body } ∷ [];
      }
  unfolding send_assembled send_body
  send_assembled_sent known short =
      let n = length-serialize_packet (numbered (next_seq pid p) fs) in ground (arith, n, known)

-- If every frame in the queue of a path and the new frame fit a packet alone, but not all of them
-- together, then SubmitFrame fails, has used up a packet number, and has emptied the queue, though
-- it has written nothing and nothing more is pending: the frames are lost.
pub submit_frame_drops :
    (c : Call) (pid : ℕ) (f : Frame) (p : Packer)
    → let frames = queue_of pid p ++ (f ∷ []) in
      All (FitsAlone p.max_packet_size) frames
      → p.max_packet_size < length (body_for pid frames p)
      → let s = submit_frame c pid f p in
        (s.result ≡ err (frame_too_large (length (body_for pid frames p)) p.max_packet_size))
        × (s.writes ≡ [])
        × (s.packer.pending ≡ p.pending)
        × (lookup pid s.packer.next_packet_seq ≡ some (next_seq pid p))
        × (queue_of pid s.packer ≡ [])
unfolding next_seq
submit_frame_drops c pid f p h big =
    let frames = queue_of pid p ++ (f ∷ []) in
    let taken = record p { queues = insert pid [] (insert pid frames p.queues) } in
    rw (submit_frame-send_assembled c pid f p h, send_assembled_too_large c pid frames taken big)
      (
        refl,
        refl,
        refl,
        rw (lookup-insert pid pid (next_seq pid p) p.next_packet_seq, ==_self pid),
        queue_of-insert pid [] (record p { queues = insert pid frames p.queues }),
      )

-- A frame that is submitted for a registered path with an empty queue, and that fits a packet,
-- leaves in one packet of its own under the next number of the path. The call reports what the
-- path's write reports; the packet is pending under its number; and if the frame is well-formed
-- and its slice can be made, DeserializePacket makes of the written bytes the packet that was sent.
pub submit_frame-deserialize_packet :
    (max_alloc : ℕ) (c : Call) (pid : ℕ) (f : Frame) (p : Packer)
    → queue_of pid p ≡ []
    → has pid p.paths ≡ true
    → FitsAlone p.max_packet_size f
    → length (body_for pid (f ∷ []) p) ≤ p.max_packet_size
    → p.max_packet_size < 2 ^ 32
    → IsParsed max_alloc f
    → let s = submit_frame c pid f p in
      (bytes : List ℕ) × (packet : PendingPacket) × (s.writes
        ≡ record { path = pid; carrier = c.quic_stream; bytes = bytes } ∷ [])
      × (deserialize_packet max_alloc bytes ≡ ok (numbered (next_seq pid p) (f ∷ [])))
      × (lookup (next_seq pid p) (pending_of pid s.packer) ≡ some packet)
      × (framed packet.body ≡ bytes)
      × (s.result ≡ outcome c.reply)
      × (queue_of pid s.packer ≡ [])
unfolding next_seq add_pending
submit_frame-deserialize_packet max_alloc c pid f p empty known fits short limit well =
    let frames = f ∷ [] in
    let taken = record p { queues = insert pid [] (insert pid frames p.queues) } in
    let seq = next_seq pid p in
    let sent = packet c pid frames taken in
    let whole : queue_of pid p ++ frames ≡ frames = rw empty in
    let submitted : submit_frame c pid f p ≡ send_assembled c pid frames taken =
      subst
        (λ fs.
          submit_frame c pid f p
          ≡ send_assembled c pid fs (record p { queues = insert pid [] (insert pid fs p.queues) }))
        whole
        (submit_frame-send_assembled c pid f p
          (subst (All (FitsAlone p.max_packet_size)) (sym whole) (fits, tt))) in
    rw (submitted, send_assembled_sent c pid frames taken known short)
      (
        framed sent.body,
        sent,
        refl,
        deserialize_packet-single max_alloc (numbered seq frames) (next_seq-IsU64 pid p) (well, tt)
            (omega arith) (omega arith),
        lookup-add_pending pid seq sent (counted pid taken),
        refl,
        refl,
        queue_of-insert pid [] (record p { queues = insert pid frames p.queues }),
      )
