-- ===== src/Transport/AckSender.antt =====
-- internal/transport/multiplexer.go: recordReceivedPacket and processAckRequest of a multiplexer that
-- is open, with the packer that sends its ACK frames.
mod Tests
use kwik.Prelude.{
  ◌∙◌, ℕ, suc, ◌+◌, ◌-◌, ◌^◌, ◌≤◌, ◌<◌, ◌≡◌, refl, sym, ap, subst, List, [], ◌∷◌, Bool, true, false,
  Option, none, some, ltb, leb, ◌==◌, ==_self, if◌then◌else◌, length, arith, All,
}
use kwik.Prelude.Map.{Map, lookup, insert, delete, has, get_or, lookup-insert, lookup-delete}
use kwik.Protocol.Errors.{Error, Result, ok, err, panic}
use kwik.Protocol.Bounds.{IsParsed}
use kwik.Protocol.Frame.{AckRange, AckFrame, Frame, ack}
use kwik.Protocol.Packet.{deserialize_packet}
use kwik.Transport.Acks.{add_seq, contains, in_ranges, get_ack_ranges, cleanup_acked}
use kwik.Transport.Acks.Exchange.{cleanup_acked-get_ack_ranges, All-weaken}
use kwik.Transport.Acks.Ranges.{in_ranges-get_ack_ranges}
use kwik.Transport.Packer.{
  Packer, Call, Write, Submitted, next_seq, numbered, queue_of, submit_frame,
}
use kwik.Transport.Packer.Submit.{FitsAlone}
use kwik.Transport.Packer.Delivery.{submit_frame-deserialize_packet, body_for}

abbrev pub ack_threshold : ℕ
ack_threshold = 16

-- The received packets of each path.
abbrev pub Received : Type 0
Received = Map (List ℕ)

-- recordReceivedPacket, and whether it asks for an urgent ACK.
unfoldable pub record_received_packet : ℕ → ℕ → Received → Bool × Received
record_received_packet pid seq received =
    let seqs = add_seq seq (get_or pid [] received) in
    (leb ack_threshold (length seqs), insert pid seqs received)

-- The loop over the ranges for the largest number.
unfoldable pub largest_of : ℕ → List AckRange → ℕ
largest_of largest [] = largest
largest_of largest (r ∷ rs) = largest_of (if ltb largest r.largest then r.largest else largest) rs

unfoldable pub ack_frame : AckRange → List AckRange → AckFrame
ack_frame r rs = record {
  largest_acked = largest_of r.largest (r ∷ rs);
  ack_delay = 0;
  ack_ranges = r ∷ rs;
}

-- What cleanupAckedPackets leaves of a path: nothing if its set is empty.
abbrev pub keep_seqs : ℕ → List ℕ → Received → Received
keep_seqs pid [] received = delete pid received
keep_seqs pid (n ∷ seqs) received = insert pid (n ∷ seqs) received

-- cleanupAckedPackets, with the fuel of its loops.
unfoldable pub cleanup_path : ℕ → ℕ → List AckRange → Received → Option Received
cleanup_path fuel pid ranges received = elim (lookup pid received) [
  | none ↦ some received
  | some seqs ↦ elim (cleanup_acked fuel ranges seqs) [
    | none ↦ none
    | some left ↦ some (keep_seqs pid left received)
  ]
]

-- How processAckRequest goes on when SubmitFrame has returned.
unfoldable pub after_submit : ℕ → ℕ → List AckRange → Result (Unit {0}) → Received → Option Received
after_submit fuel pid ranges (ok u) received = cleanup_path fuel pid ranges received
after_submit fuel pid ranges (err e) received = some received
after_submit fuel pid ranges panic received = some received

pub record Acknowledged : Type 0 where
  -- `none` means that the fuel ran out
  pub received : Option Received
  pub packer : Packer
  pub writes : List Write

-- processAckRequest for the ranges of its path.
unfoldable pub process_ranges : ℕ → Call → ℕ → List AckRange → Received → Packer → Acknowledged
process_ranges fuel c pid [] received p = record {
  received = some received;
  packer = p;
  writes = [];
}
process_ranges fuel c pid (r ∷ rs) received p =
    let s = submit_frame c pid (ack (ack_frame r rs)) p in
    if has pid p.paths
    then record {
      received = after_submit fuel pid (r ∷ rs) s.result received;
      packer = s.packer;
      writes = s.writes;
    }
    else record { received = some received; packer = p; writes = [] }

unfoldable pub process_ack_request : ℕ → Call → ℕ → Received → Packer → Acknowledged
process_ack_request fuel c pid received p =
    process_ranges fuel c pid (get_ack_ranges (get_or pid [] received)) received p

cleanup_path-get_ack_ranges :
    (b pid : ℕ) (seqs : List ℕ) (received : Received)
    → lookup pid received ≡ some seqs
    → b ≤ 2 ^ 64 - 1
    → All (λ n. n < b) seqs
    → cleanup_path (suc b) pid (get_ack_ranges seqs) received ≡ some (delete pid received)
unfolding cleanup_path
cleanup_path-get_ack_ranges b pid seqs received e hb h =
    rw (e, cleanup_path, cleanup_acked-get_ack_ranges b seqs hb h) refl

-- Some packets, with numbers below a bound that is no more than the largest uint64, are recorded
-- for a registered path with an empty queue, and the ACK frame for them fits a packet, has fields
-- in range, and can be allocated. If the path's write succeeds, then processAckRequest writes one
-- packet, in which DeserializePacket finds an ACK frame whose ranges hold the numbers of the
-- recorded packets and no other, and the record of the path is empty.
pub process_ack_request-get_ack_ranges :
    (max_alloc b : ℕ) (c : Call) (pid : ℕ) (received : Received) (p : Packer) (seqs : List ℕ)
    (r : AckRange) (rs : List AckRange)
    → lookup pid received ≡ some seqs
    → get_ack_ranges seqs ≡ r ∷ rs
    → b ≤ 2 ^ 64 - 1
    → All (λ n. n < b) seqs
    → queue_of pid p ≡ []
    → has pid p.paths ≡ true
    → length (body_for pid (ack (ack_frame r rs) ∷ []) p) ≤ p.max_packet_size
    → p.max_packet_size < 2 ^ 32
    → IsParsed max_alloc (ack (ack_frame r rs))
    → c.reply ≡ none
    → let a = process_ack_request (suc b) c pid received p in
      (bytes : List ℕ) × (a.writes
        ≡ record { path = pid; carrier = c.quic_stream; bytes = bytes } ∷ [])
      × (deserialize_packet max_alloc bytes
          ≡ ok (numbered (next_seq pid p) (ack (ack_frame r rs) ∷ [])))
      × ((n : ℕ) → in_ranges n (r ∷ rs) ≡ contains n seqs)
      × (a.received ≡ some (delete pid received))
unfolding process_ack_request process_ranges after_submit
process_ack_request-get_ack_ranges max_alloc b c pid received p seqs r rs e shape hb h empty known
      short limit well replied =
    let f = ack (ack_frame r rs) in
    let (bytes, packet, written, parsed, pending, body, result, queue) =
      submit_frame-deserialize_packet max_alloc c pid f p empty known tt short limit well in
    let done : (submit_frame c pid f p).result ≡ ok tt = result ∙ rw replied refl in
    let cleaned : cleanup_path (suc b) pid (r ∷ rs) received ≡ some (delete pid received) =
      subst (λ ranges. cleanup_path (suc b) pid ranges received ≡ some (delete pid received)) shape
        (cleanup_path-get_ack_ranges b pid seqs received e hb h) in
    let u : All (λ n. n < 2 ^ 64) seqs = All-weaken seqs (λ n k. omega arith) h in
    rw (e, shape, known, done)
      (
        bytes,
        written,
        parsed,
        λ n.
            subst (λ ranges. in_ranges n ranges ≡ contains n seqs) shape
              (in_ranges-get_ack_ranges n seqs u),
        cleaned,
      )
