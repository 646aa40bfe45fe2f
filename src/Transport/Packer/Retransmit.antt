-- ===== src/Transport/Packer/Retransmit.antt =====
-- internal/transport/packer.go: the retransmission loop. A round collects the packets that are due
-- and then writes them, one after another; each of these writes is a step of its own, since the
-- mutex is free while the path writes.
use kwik.Prelude.{
  ℕ, ◌+◌, ◌-◌, ◌*◌, ◌/◌, ◌%◌, ◌^◌, min, List, [], ◌∷◌, ◌++◌, Bool, true, false, Option, none, some,
  ltb, leb, ◌==◌, if◌then◌else◌, length,
}
use kwik.Prelude.Map.{Map, lookup, insert, delete, has}
use kwik.Protocol.Errors.{Error, stream_not_exists}
use kwik.Protocol.Bytes.{be_bytes}
use kwik.Protocol.Packet.{serialize_packet}
use kwik.Transport.Packer.{
  PendingPacket, Packer, Write, max_attempts, base_backoff_ms, max_backoff_ms,
}

pub record Task : Type 0 where
  pub path : ℕ
  pub seq : ℕ
  pub body : List ℕ
  pub carrier : ℕ

-- What the collection has made of the packets of a path, and what it adds to the counters.
pub record Collected : Type 0 where
  pub left : Map PendingPacket
  pub tasks : List Task
  pub sent : ℕ
  pub resent : ℕ
  pub dropped : ℕ

-- The body of a packet, built from the packet if it is empty.
unfoldable pub body_of : PendingPacket → List ℕ
body_of packet = elim packet.body [
  | [] ↦ elim packet.pkt [ none ↦ [] | some p ↦ serialize_packet p ]
  | b ∷ bs ↦ b ∷ bs
]

-- The body of the loop over the packets of a path, in front of what the rest of the loop gives.
unfoldable pub collect_packet : ℕ → ℕ → ℕ → PendingPacket → Collected → Collected
collect_packet now pid seq packet rest =
    if ltb now packet.next_retry
    then record rest { left = (seq, packet) ∷ rest.left }
    else if leb max_attempts packet.attempts
    then record rest { dropped = rest.dropped + 1 }
    else let attempts = packet.attempts + 1 in
      record {
        left = (seq, record packet { attempts = attempts }) ∷ rest.left;
        tasks =
            record { path = pid; seq = seq; body = body_of packet; carrier = packet.carrier }
            ∷ rest.tasks;
        sent = if attempts == 1 then rest.sent + 1 else rest.sent;
        resent = if attempts == 1 then rest.resent else rest.resent + 1;
        dropped = rest.dropped;
      }

-- The loop, where `clock` is the time at which it comes to a packet.
unfoldable pub collect : (ℕ → ℕ) → ℕ → Map PendingPacket → Collected
collect clock pid [] = record { left = []; tasks = []; sent = 0; resent = 0; dropped = 0 }
collect clock pid (entry ∷ mp) =
    collect_packet (clock entry.0) pid entry.0 entry.1 (collect clock pid mp)

-- The collection on one path.
unfoldable pub collect_path : (ℕ → ℕ) → ℕ → Packer → List Task × Packer
collect_path clock pid p = elim (lookup pid p.pending) [
  | none ↦ ([], p)
  | some mp ↦
      let c = collect clock pid mp in
      (
        c.tasks,
        record p {
          pending = insert pid c.left p.pending;
          sent_count = p.sent_count + c.sent;
          resent_count = p.resent_count + c.resent;
          dropped_count = p.dropped_count + c.dropped;
        },
      )
]

-- What a task writes: nothing, and with no error, if its path is not registered.
unfoldable pub write_task : Task → Packer → List Write
write_task t p =
    if has t.path p.paths
    then record { path = t.path; carrier = t.carrier; bytes = be_bytes 4 (length t.body) ++ t.body }
      ∷ []
    else []

-- The wait after a failed write, where `nanos` is the clock that the jitter is taken from. A packet
-- has 2 to 12 attempts here, so that the shift cannot overflow.
unfoldable pub failure_backoff : ℕ → ℕ → ℕ
failure_backoff nanos attempts =
    let backoff = min (base_backoff_ms * 2 ^ (attempts - 1)) max_backoff_ms in
    let jitter = backoff / 4 in if ltb 0 jitter then backoff + nanos % jitter else backoff

-- The wait after a write without an error.
unfoldable pub success_wait : ℕ → ℕ
success_wait attempts = min (base_backoff_ms * 2 ^ attempts) max_backoff_ms

unfoldable pub no_stream : Error → Bool
no_stream (stream_not_exists path stream) = true
no_stream _ = false

-- What becomes of a pending packet when its write has been answered: it stays, or it is deleted,
-- and the counter of dropped packets grows.
unfoldable pub rescheduled : ℕ → ℕ → Option Error → PendingPacket → Option PendingPacket × ℕ
rescheduled now nanos none packet =
    (some (record packet { next_retry = now + success_wait packet.attempts }), 0)
rescheduled now nanos (some e) packet =
    if no_stream e
    then (none, 1)
    else (some (record packet { next_retry = now + failure_backoff nanos packet.attempts }), 0)

-- The check behind it, which counts a packet a second time if it was deleted already.
unfoldable pub give_up : ℕ → Option PendingPacket × ℕ → Option PendingPacket × ℕ
give_up attempts (kept, dropped) =
    if leb max_attempts attempts then (none, dropped + 1) else (kept, dropped)

abbrev pub put_back : ℕ → Option PendingPacket → Map PendingPacket → Map PendingPacket
put_back seq none mp = delete seq mp
put_back seq (some packet) mp = insert seq packet mp

-- What follows the write of a task.
unfoldable pub finish_task : ℕ → ℕ → Option Error → Task → Packer → Packer
finish_task now nanos reply t p = elim (lookup t.path p.pending) [
  | none ↦ p
  | some mp ↦ elim (lookup t.seq mp) [
    | none ↦ p
    | some packet ↦
        let (kept, dropped) = give_up packet.attempts (rescheduled now nanos reply packet) in
        record p {
          pending = insert t.path (put_back t.seq kept mp) p.pending;
          dropped_count = p.dropped_count + dropped;
        }
  ]
]
