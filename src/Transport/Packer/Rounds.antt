-- ===== src/Transport/Packer/Rounds.antt =====
-- internal/transport/packer.go: the retransmission rounds and the cancelled streams keep what the
-- invariant says.
use kwik.Prelude.{
  ℕ, ◌≡◌, refl, [], ◌∷◌, Option, none, some, ltb, leb, arith, inl, inr, Bool-cases, Option-cases,
}
use kwik.Prelude.Map.{Map, lookup, Every, Every-insert, Every-delete, Every-lookup}
use kwik.Protocol.Errors.{Error}
use kwik.Transport.Packer.{PendingPacket, Packer, max_attempts}
use kwik.Transport.Packer.Registry.{
  keep_path, cancel_packets, cancel_paths, cancel_frames_for_stream, carries,
}
use kwik.Transport.Packer.Retransmit.{
  Task, Collected, collect_packet, collect, collect_path, rescheduled, give_up, put_back,
  finish_task, no_stream,
}
use kwik.Transport.Packer.Invariant.{SoundPacket, SoundMap, IsSound, insert-IsSound}

cancel_packets-SoundMap :
    (max sid : ℕ) (mp : Map PendingPacket) → SoundMap max mp → SoundMap max (cancel_packets sid mp)
unfolding cancel_packets
cancel_packets-SoundMap max sid [] v = tt
cancel_packets-SoundMap max sid (entry ∷ mp) v =
    elim (Bool-cases (carries sid entry.1.frame_info)) [
      | inl e ↦ rw e (cancel_packets-SoundMap max sid mp v.1)
      | inr e ↦ rw e (v.0, cancel_packets-SoundMap max sid mp v.1)
    ]

keep_path-Every :
    (max pid : ℕ) (left : Map PendingPacket) (rest : Map (Map PendingPacket))
    → SoundMap max left
    → Every (λ pid mp. SoundMap max mp) rest
    → Every (λ pid mp. SoundMap max mp) (keep_path pid left rest)
keep_path-Every max pid [] rest h v = v
keep_path-Every max pid (entry ∷ left) rest h v = (h, v)

cancel_paths-Every :
    (max sid : ℕ) (pending : Map (Map PendingPacket))
    → Every (λ pid mp. SoundMap max mp) pending
    → Every (λ pid mp. SoundMap max mp) (cancel_paths sid pending)
unfolding cancel_paths
cancel_paths-Every max sid [] v = tt
cancel_paths-Every max sid (entry ∷ pending) v =
    keep_path-Every max entry.0 (cancel_packets sid entry.1) (cancel_paths sid pending)
      (cancel_packets-SoundMap max sid entry.1 v.0) (cancel_paths-Every max sid pending v.1)

pub cancel_frames_for_stream-IsSound :
    (sid : ℕ) (p : Packer) → IsSound p → IsSound (cancel_frames_for_stream sid p)
unfolding cancel_frames_for_stream
cancel_frames_for_stream-IsSound sid p v = record {
  packets = cancel_paths-Every p.max_packet_size sid p.pending v.packets;
  unsent = v.unsent;
}

-- The packets that the collection keeps are sound, and none of them counts as sent, since each has
-- been tried before.
record SoundCollected (max : ℕ) (c : Collected) : Type 0 where
  left : SoundMap max c.left
  unsent : c.sent ≡ 0

collect_packet-SoundCollected :
    (max now pid seq : ℕ) (packet : PendingPacket) (rest : Collected)
    → SoundPacket max seq packet
    → SoundCollected max rest
    → SoundCollected max (collect_packet now pid seq packet rest)
unfolding collect_packet
collect_packet-SoundCollected max now pid seq packet rest h v =
    elim (Bool-cases (ltb now packet.next_retry)) [
      | inl e ↦ rw e (record { left = (h, v.left); unsent = v.unsent })
      | inr e ↦ elim (Bool-cases (leb max_attempts packet.attempts)) [
        | inl k ↦ rw (e, k) (record { left = v.left; unsent = v.unsent })
        | inr k ↦
            rw (e, k)
              (record {
                left = (
                  record {
                    frames = h.frames;
                    body = h.body;
                    short = h.short;
                    tried = omega arith;
                    bounded = ground (arith, k);
                  },
                  v.left,
                );
                unsent = ground (arith, h.tried, v.unsent);
              })
      ]
    ]

collect-SoundCollected :
    (max : ℕ) (clock : ℕ → ℕ) (pid : ℕ) (mp : Map PendingPacket)
    → SoundMap max mp
    → SoundCollected max (collect clock pid mp)
unfolding collect
collect-SoundCollected max clock pid [] v = record { left = tt; unsent = refl }
collect-SoundCollected max clock pid (entry ∷ mp) v =
    collect_packet-SoundCollected max (clock entry.0) pid entry.0 entry.1 (collect clock pid mp) v.0
      (collect-SoundCollected max clock pid mp v.1)

pub collect_path-IsSound :
    (clock : ℕ → ℕ) (pid : ℕ) (p : Packer) → IsSound p → IsSound (collect_path clock pid p).1
unfolding collect_path
collect_path-IsSound clock pid p v = elim (Option-cases (lookup pid p.pending)) [
  | inl e ↦ rw (e, collect_path) v
  | inr (mp, e) ↦
      let sound =
        Every-lookup (λ pid mp. SoundMap p.max_packet_size mp) pid mp p.pending v.packets e in
      let c = collect-SoundCollected p.max_packet_size clock pid mp sound in
      rw (e, collect_path)
        (record {
          packets = (insert-IsSound pid (collect clock pid mp).left p v c.left).packets;
          unsent = omega (arith, v.unsent, c.unsent);
        })
]

abbrev SoundOption : ℕ → ℕ → Option PendingPacket → Type 0
SoundOption max seq none = Unit
SoundOption max seq (some packet) = SoundPacket max seq packet

rescheduled-SoundOption :
    (max seq now nanos : ℕ) (reply : Option Error) (packet : PendingPacket)
    → SoundPacket max seq packet
    → SoundOption max seq (rescheduled now nanos reply packet).0
unfolding rescheduled
rescheduled-SoundOption max seq now nanos none packet h = record {
  frames = h.frames;
  body = h.body;
  short = h.short;
  tried = h.tried;
  bounded = h.bounded;
}
rescheduled-SoundOption max seq now nanos (some e) packet h = elim (Bool-cases (no_stream e)) [
  | inl k ↦ rw k tt
  | inr k ↦ rw k (record {
    frames = h.frames;
    body = h.body;
    short = h.short;
    tried = h.tried;
    bounded = h.bounded;
  })
]

give_up-SoundOption :
    (max seq attempts : ℕ) (r : Option PendingPacket × ℕ)
    → SoundOption max seq r.0
    → SoundOption max seq (give_up attempts r).0
unfolding give_up
give_up-SoundOption max seq attempts (kept, dropped) h =
    elim (Bool-cases (leb max_attempts attempts)) [ inl k ↦ rw k tt | inr k ↦ rw k h ]

put_back-SoundMap :
    (max seq : ℕ) (kept : Option PendingPacket) (mp : Map PendingPacket)
    → SoundOption max seq kept
    → SoundMap max mp
    → SoundMap max (put_back seq kept mp)
put_back-SoundMap max seq none mp h v = Every-delete (SoundPacket max) seq mp v
put_back-SoundMap max seq (some packet) mp h v = Every-insert (SoundPacket max) seq packet mp h v

pub finish_task-IsSound :
    (now nanos : ℕ) (reply : Option Error) (t : Task) (p : Packer)
    → IsSound p
    → IsSound (finish_task now nanos reply t p)
unfolding finish_task
finish_task-IsSound now nanos reply t p v = elim (Option-cases (lookup t.path p.pending)) [
  | inl e ↦ rw (e, finish_task) v
  | inr (mp, e) ↦
      let sound =
        Every-lookup (λ pid mp. SoundMap p.max_packet_size mp) t.path mp p.pending v.packets e in
      elim (Option-cases (lookup t.seq mp)) [
        | inl k ↦ rw (e, finish_task, k) v
        | inr (packet, k) ↦
            let h = Every-lookup (SoundPacket p.max_packet_size) t.seq packet mp sound k in
            let r = rescheduled now nanos reply packet in
            let kept = (give_up packet.attempts r).0 in
            let good =
              give_up-SoundOption p.max_packet_size t.seq packet.attempts r
                (rescheduled-SoundOption p.max_packet_size t.seq now nanos reply packet h) in
            let all = put_back-SoundMap p.max_packet_size t.seq kept mp good sound in
            rw (e, finish_task, k)
              (record {
                packets = (insert-IsSound t.path (put_back t.seq kept mp) p v all).packets;
                unsent = v.unsent;
              })
      ]
]
