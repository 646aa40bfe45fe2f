-- ===== src/Transport/Packer/Invariant.antt =====
-- internal/transport/packer.go: what all operations of a Packer keep.
use kwik.Prelude.{
  ℕ, ◌≤◌, ◌≡◌, refl, List, [], ◌∷◌, ◌++◌, none, ltb, length, drop, arith, inl, inr, Bool-cases,
  Option-cases,
}
use kwik.Prelude.Map.{Map, lookup, insert, has, Every, Every-insert, Every-lookup}
use kwik.Protocol.Errors.{Result, ok, err, panic}
use kwik.Protocol.Frame.{Frame}
use kwik.Protocol.Packet.{serialize_packet}
use kwik.Transport.Packer.{
  PendingPacket, Packer, Call, assemble, pending_of, next_seq, numbered, send_body, first_attempt,
  send_assembled, after_assembly, queue_of, submit_frame, add_pending,
}

-- A pending packet holds the bytes of a packet with the number under which it is kept, is no larger
-- than the maximum, and has been sent once at least and twelve times at most.
pub record SoundPacket (max seq : ℕ) (packet : PendingPacket) : Type 0 where
  pub frames : List Frame
  pub body : packet.body ≡ serialize_packet (numbered seq frames)
  pub short : length packet.body ≤ max
  pub tried : 1 ≤ packet.attempts
  pub bounded : packet.attempts ≤ 12

abbrev pub SoundMap : ℕ → Map PendingPacket → Type 0
SoundMap max mp = Every (SoundPacket max) mp

-- Every pending packet of every path is sound, and no packet was ever counted as sent.
pub record IsSound (p : Packer) : Type 0 where
  pub packets : Every (λ pid mp. SoundMap p.max_packet_size mp) p.pending
  pub unsent : p.sent_count ≡ 0

pending_of-SoundMap :
    (pid : ℕ) (p : Packer) → IsSound p → SoundMap p.max_packet_size (pending_of pid p)
pending_of-SoundMap pid p v = elim (Option-cases (lookup pid p.pending)) [
  | inl e ↦ rw e tt
  | inr (mp, e) ↦
      rw e (Every-lookup (λ pid mp. SoundMap p.max_packet_size mp) pid mp p.pending v.packets e)
]

-- The pending packets of one path are exchanged for sound ones.
pub insert-IsSound :
    (pid : ℕ) (mp : Map PendingPacket) (p : Packer)
    → IsSound p
    → SoundMap p.max_packet_size mp
    → IsSound (record p { pending = insert pid mp p.pending })
insert-IsSound pid mp p v h = record {
  packets = Every-insert (λ pid mp. SoundMap p.max_packet_size mp) pid mp p.pending h v.packets;
  unsent = v.unsent;
}

pub send_body-IsSound :
    (c : Call) (pid seq : ℕ) (packet : PendingPacket) (p : Packer)
    → IsSound p
    → SoundPacket p.max_packet_size seq packet
    → IsSound (send_body c pid seq packet p).packer
unfolding send_body add_pending
send_body-IsSound c pid seq packet p v h = elim (Bool-cases (has pid p.paths)) [
  | inl e ↦ rw e (
      insert-IsSound pid (insert seq packet (pending_of pid p)) p v (
        Every-insert (SoundPacket p.max_packet_size) seq packet (pending_of pid p) h
          (pending_of-SoundMap pid p v)))
  | inr e ↦ rw e v
]

send_assembled-IsSound :
    (c : Call) (pid : ℕ) (fs : List Frame) (p : Packer)
    → IsSound p
    → IsSound (send_assembled c pid fs p).packer
unfolding send_assembled
send_assembled-IsSound c pid fs p v =
    let counted = record p { next_packet_seq = insert pid (next_seq pid p) p.next_packet_seq } in
    let body = serialize_packet (numbered (next_seq pid p) fs) in
    let sound : IsSound counted = record { packets = v.packets; unsent = v.unsent } in
    elim (Bool-cases (ltb (length body) 8)) [
      | inl e ↦ rw e sound
      | inr e ↦ elim (Bool-cases (ltb p.max_packet_size (length body))) [
        | inl k ↦ rw (e, k) sound
        | inr k ↦
            rw (e, k)
              (send_body-IsSound c pid (next_seq pid p) (first_attempt c c.quic_stream body none fs)
                counted sound
                (record {
                  frames = fs;
                  body = refl;
                  short = ground (arith, k);
                  tried = omega arith;
                  bounded = omega arith;
                }))
      ]
    ]

after_assembly-IsSound :
    (c : Call) (pid : ℕ) (fs : List Frame) (p : Packer) (r : Result (List Frame))
    → IsSound p
    → IsSound (after_assembly c pid fs p r).packer
unfolding after_assembly
after_assembly-IsSound c pid fs p panic v = v
after_assembly-IsSound c pid fs p (err e) v = v
after_assembly-IsSound c pid fs p (ok []) v = v
after_assembly-IsSound c pid fs p (ok (g ∷ gs)) v =
    send_assembled-IsSound c pid (g ∷ gs)
      (record p { queues = insert pid (drop (length (g ∷ gs)) fs) p.queues })
      (record { packets = v.packets; unsent = v.unsent })

pub submit_frame-IsSound :
    (c : Call) (pid : ℕ) (f : Frame) (p : Packer)
    → IsSound p
    → IsSound (submit_frame c pid f p).packer
unfolding submit_frame
submit_frame-IsSound c pid f p v =
    let frames = queue_of pid p ++ (f ∷ []) in
    after_assembly-IsSound c pid frames (record p { queues = insert pid frames p.queues })
      (assemble p.max_packet_size 0 frames) (record { packets = v.packets; unsent = v.unsent })
