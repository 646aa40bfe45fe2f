-- ===== src/Transport/Packer/Retries.antt =====
-- internal/transport/packer.go: when a packet that nobody acknowledges is sent again, and how often.
use kwik.Prelude.{
  ◌/◌, ◌%◌, min, ℕ, suc, zero, ◌+◌, ◌-◌, ◌*◌, ◌^◌, ◌≤◌, ◌<◌, ◌≡◌, refl, ap, ◌∙◌, List, [], ◌∷◌,
  ◌++◌, Bool, true, false, if_true, replicate, Option, none, some, ltb, leb, ==_self, if◌then◌else◌,
  length, arith,
}
use kwik.Prelude.Map.{Map, has, lookup, insert, delete, lookup-insert}
use kwik.Protocol.Errors.{Error}
use native.Mathlib.Nat.{mod-lt}
use kwik.Transport.Packer.{
  base_backoff_ms, max_backoff_ms, PendingPacket, Packer, Write, max_attempts,
}
use kwik.Protocol.Packet.RoundTrip.{framed}
use kwik.Transport.Packer.Retransmit.{
  Task, collect_packet, collect, collect_path, rescheduled, give_up, put_back, finish_task,
  no_stream, success_wait, failure_backoff, body_of, write_task,
}

pow_pos : (n : ℕ) → 1 ≤ 2 ^ n
pow_pos zero = omega arith
pow_pos (suc n) = omega (arith, pow_pos n)

jitter_bounds :
    (nanos backoff : ℕ)
    → base_backoff_ms ≤ backoff
    → backoff ≤ max_backoff_ms
    → let wait = if ltb 0 (backoff / 4) then backoff + nanos % (backoff / 4) else backoff in
      (base_backoff_ms ≤ wait) × (wait < max_backoff_ms + max_backoff_ms / 4)
jitter_bounds nanos backoff low high = ground (arith, mod-lt nanos {m = backoff / 4} (omega arith))

-- The wait behind a failed write lies between the first backoff and the largest one with its
-- jitter, whatever the clock says, and the wait behind a write without an error lies between the
-- first backoff and the largest one.
pub backoff_bounds :
    (nanos attempts : ℕ)
    → (base_backoff_ms ≤ failure_backoff nanos attempts)
      × (failure_backoff nanos attempts < max_backoff_ms + max_backoff_ms / 4)
      × (base_backoff_ms ≤ success_wait attempts)
      × (success_wait attempts ≤ max_backoff_ms)
unfolding failure_backoff success_wait
backoff_bounds nanos attempts =
    let n = pow_pos (attempts - 1) in
    let n' = pow_pos attempts in
    let (low, high) =
      jitter_bounds nanos (min (base_backoff_ms * 2 ^ (attempts - 1)) max_backoff_ms) (omega arith)
        (omega arith) in
    (low, high, omega arith, omega arith)

-- One round of the retransmission loop for the packets of a path: the time of the collection, and
-- the time of the answers to the writes, with the clock of the jitter and the answer.
pub record Round : Type 0 where
  pub now : ℕ
  pub done : ℕ
  pub nanos : ℕ
  pub reply : Option Error

unfoldable pub finish_all : Round → List Task → Packer → List Write × Packer
finish_all r [] p = ([], p)
finish_all r (t ∷ ts) p =
    let (ws, p') = finish_all r ts (finish_task r.done r.nanos r.reply t p) in
    (write_task t p ++ ws, p')

unfoldable pub retry : ℕ → Round → Packer → List Write × Packer
retry pid r p = let (tasks, p') = collect_path (λ seq. r.now) pid p in finish_all r tasks p'

-- What some rounds write, and the state behind them.
unfoldable pub retry_all : ℕ → List Round → Packer → List Write × Packer
retry_all pid [] p = ([], p)
retry_all pid (r ∷ rs) p =
    let (ws, p') = retry pid r p in let (more, p'') = retry_all pid rs p' in (ws ++ more, p'')

-- One packet is pending on the path.
abbrev pub Holds : ℕ → ℕ → PendingPacket → Packer → Type 0
Holds pid seq packet p = lookup pid p.pending ≡ some ((seq, packet) ∷ [])

-- Whether the answer to a write says that its stream is gone.
unfoldable pub no_stream_reply : Option Error → Bool
no_stream_reply none = false
no_stream_reply (some e) = no_stream e

-- The rounds come late enough for a packet to be due, and no answer says that its stream is gone.
abbrev pub AreSpaced : ℕ → List Round → Type 0
AreSpaced t [] = Unit
AreSpaced t (r ∷ rs) =
    (t ≤ r.now) × (no_stream_reply r.reply ≡ false) × AreSpaced (r.done + 3750) rs

abbrev task_of : ℕ → ℕ → PendingPacket → Task
task_of pid seq packet = record {
  path = pid;
  seq = seq;
  body = body_of packet;
  carrier = packet.carrier;
}

abbrev bumped : PendingPacket → PendingPacket
bumped packet = record packet { attempts = packet.attempts + 1 }

record CollectsOne (pid seq : ℕ) (packet : PendingPacket) (known : Map (Unit {0}))
    (r : List Task × Packer) : Type 0 where
  tasks : r.0 ≡ task_of pid seq packet ∷ []
  holds : Holds pid seq (bumped packet) r.1
  paths : r.1.paths ≡ known

collect_path-CollectsOne :
    (now pid seq : ℕ) (packet : PendingPacket) (p : Packer)
    → Holds pid seq packet p
    → packet.next_retry ≤ now
    → packet.attempts < max_attempts
    → CollectsOne pid seq packet p.paths (collect_path (λ seq. now) pid p)
unfolding collect_path collect collect_packet
collect_path-CollectsOne now pid seq packet p h due young =
    let d : ltb now packet.next_retry ≡ false = ground arith in
    let y : leb max_attempts packet.attempts ≡ false = ground arith in
    rw (h, collect_path, d, y)
      (record {
        tasks = refl;
        holds = rw (lookup-insert pid pid ((seq, bumped packet) ∷ []) p.pending, ==_self pid) refl;
        paths = refl;
      })

-- What the answer to a write leaves of the packet.
abbrev answered : Round → PendingPacket → Option PendingPacket
answered r packet = (give_up packet.attempts (rescheduled r.done r.nanos r.reply packet)).0

lookup_first : (seq : ℕ) (packet : PendingPacket) → lookup seq ((seq, packet) ∷ []) ≡ some packet
unfolding lookup
lookup_first seq packet = rw (==_self seq) refl

delete_first : (seq : ℕ) (packet : PendingPacket) → delete seq ((seq, packet) ∷ []) ≡ []
unfolding delete
delete_first seq packet = rw (==_self seq) refl

insert_first :
    (seq : ℕ) (packet packet' : PendingPacket)
    → insert seq packet' ((seq, packet) ∷ []) ≡ (seq, packet') ∷ []
unfolding insert
insert_first seq packet packet' = rw (==_self seq) refl

finish_task-put_back :
    (r : Round) (pid seq : ℕ) (packet sent : PendingPacket) (p : Packer)
    → Holds pid seq packet p
    → lookup pid (finish_task r.done r.nanos r.reply (task_of pid seq sent) p).pending
      ≡ some (put_back seq (answered r packet) ((seq, packet) ∷ []))
unfolding finish_task
finish_task-put_back r pid seq packet sent p h =
    let left = put_back seq (answered r packet) ((seq, packet) ∷ []) in
    rw (h, finish_task, lookup_first seq packet, lookup-insert pid pid left p.pending, ==_self pid)
      refl

finish_task-paths :
    (r : Round) (pid seq : ℕ) (packet sent : PendingPacket) (p : Packer)
    → Holds pid seq packet p
    → (finish_task r.done r.nanos r.reply (task_of pid seq sent) p).paths ≡ p.paths
unfolding finish_task
finish_task-paths r pid seq packet sent p h = rw (h, finish_task, lookup_first seq packet) refl

-- What is written of a packet.
abbrev pub write_of : ℕ → PendingPacket → Write
write_of pid packet = record {
  path = pid;
  carrier = packet.carrier;
  bytes = framed (body_of packet);
}

write_task-write_of :
    (pid seq : ℕ) (packet : PendingPacket) (p : Packer)
    → has pid p.paths ≡ true
    → write_task (task_of pid seq packet) p ≡ write_of pid packet ∷ []
unfolding write_task
write_task-write_of pid seq packet p known = if_true (has pid p.paths) _ _ known

-- What a round does to the only packet of a path.
record Retries (pid seq : ℕ) (r : Round) (packet : PendingPacket) (p : Packer)
    (result : List Write × Packer) : Type 0 where
  writes : result.0 ≡ write_of pid packet ∷ []
  left :
      lookup pid result.1.pending
      ≡ some (put_back seq (answered r (bumped packet)) ((seq, bumped packet) ∷ []))
  paths : result.1.paths ≡ p.paths

retry-Retries :
    (r : Round) (pid seq : ℕ) (packet : PendingPacket) (p : Packer)
    → Holds pid seq packet p
    → has pid p.paths ≡ true
    → packet.next_retry ≤ r.now
    → packet.attempts < max_attempts
    → Retries pid seq r packet p (retry pid r p)
unfolding retry finish_all
retry-Retries r pid seq packet p h known due young =
    let one = collect_path-CollectsOne r.now pid seq packet p h due young in
    let q = (collect_path (λ seq. r.now) pid p).1 in
    let known' : has pid q.paths ≡ true = ap (has pid) one.paths ∙ known in
    record {
      writes = rw (one.tasks) (ap (λ ws. ws ++ []) (write_task-write_of pid seq packet q known'));
      left = rw (one.tasks) (finish_task-put_back r pid seq (bumped packet) packet q one.holds);
      paths =
          rw (one.tasks)
            (finish_task-paths r pid seq (bumped packet) packet q one.holds ∙ one.paths);
    }

-- A packet that may be tried again stays, and is due within the largest wait.
record Waits (pid done : ℕ) (packet : PendingPacket) (o : Option PendingPacket) : Type 0 where
  kept : PendingPacket
  is_kept : o ≡ some kept
  tried : kept.attempts ≡ packet.attempts
  soon : kept.next_retry ≤ done + 3750
  same : write_of pid kept ≡ write_of pid packet

answered-Waits :
    (pid done nanos : ℕ) (reply : Option Error) (packet : PendingPacket)
    → packet.attempts < max_attempts
    → no_stream_reply reply ≡ false
    → Waits pid done packet (give_up packet.attempts (rescheduled done nanos reply packet)).0
unfolding rescheduled give_up no_stream_reply body_of
answered-Waits pid done nanos none packet young here =
    let y : leb max_attempts packet.attempts ≡ false = ground arith in
    let b = backoff_bounds nanos packet.attempts in
    rw y (record {
      kept = record packet { next_retry = done + success_wait packet.attempts };
      is_kept = refl;
      tried = refl;
      soon = omega arith;
      same = refl;
    })
answered-Waits pid done nanos (some e) packet young here =
    let y : leb max_attempts packet.attempts ≡ false = ground arith in
    let b = backoff_bounds nanos packet.attempts in
    rw (here, y)
      (record {
        kept = record packet { next_retry = done + failure_backoff nanos packet.attempts };
        is_kept = refl;
        tried = refl;
        soon = omega arith;
        same = refl;
      })

answered_last :
    (r : Round) (packet : PendingPacket) → max_attempts ≤ packet.attempts → answered r packet ≡ none
unfolding give_up
answered_last r packet old = ground arith

-- A packet that is the only one of a registered path, that is never acknowledged, and whose stream
-- is not reported gone, is written again in each round of the retransmission loop, whole, behind its
-- length and to the stream that it was written to first, and nothing else is written for the path;
-- after its twelfth attempt it is pending no more, if every round comes late enough for it to be due.
pub retry_all_ends :
    (pid seq t : ℕ) (packet : PendingPacket) (p : Packer) (rs : List Round)
    → Holds pid seq packet p
    → has pid p.paths ≡ true
    → packet.next_retry ≤ t
    → AreSpaced t rs
    → packet.attempts + length rs ≡ max_attempts
    → 0 < length rs
    → ((retry_all pid rs p).0 ≡ replicate (length rs) (write_of pid packet))
      × (lookup pid (retry_all pid rs p).1.pending ≡ some [])
unfolding retry_all body_of
retry_all_ends pid seq t packet p [] h known due spaced count some_round = absurd (omega arith)
retry_all_ends pid seq t packet p (r ∷ []) h known due spaced count some_round =
    let one = retry-Retries r pid seq packet p h known (omega (arith, spaced.0)) (omega arith) in
    let gone = answered_last r (bumped packet) (omega arith) in
    let left : put_back seq (answered r (bumped packet)) ((seq, bumped packet) ∷ []) ≡ [] =
      rw gone (delete_first seq (bumped packet)) in
    (ap (λ ws. ws ++ []) one.writes, one.left ∙ ap some left)
retry_all_ends pid seq t packet p (r ∷ (r' ∷ rs)) h known due spaced count some_round =
    let one = retry-Retries r pid seq packet p h known (omega (arith, spaced.0)) (omega arith) in
    let w = answered-Waits pid r.done r.nanos r.reply (bumped packet) (omega arith) spaced.1 in
    let left : put_back seq (answered r (bumped packet)) ((seq, bumped packet) ∷ [])
        ≡ (seq, w.kept) ∷ [] =
      rw (w.is_kept) (insert_first seq (bumped packet) w.kept) in
    let rest =
      retry_all_ends pid seq (r.done + 3750) w.kept (retry pid r p).1 (r' ∷ rs)
        (one.left ∙ ap some left) (ap (has pid) one.paths ∙ known) w.soon spaced.2
        (omega (arith, w.tried)) (omega arith) in
    (
      ap (λ ws. ws ++ (retry_all pid (r' ∷ rs) (retry pid r p).1).0) one.writes
          ∙ ap (◌∷◌ (write_of pid packet)) (rest.0 ∙ ap (replicate (length (r' ∷ rs))) w.same),
      rest.1,
    )
