-- ===== src/Transport/Packer/Operations.antt =====
-- internal/transport/packer.go: SubmitFromSendStream, OnAck and the registration of paths keep what
-- the invariant says.
use kwik.Prelude.{
  ℕ, suc, zero, ◌-◌, ◌^◌, ◌<◌, ◌≡◌, refl, subst, List, [], ◌∷◌, Bool, true, false, none, some, ltb,
  leb, length, add64, arith, All, inl, inr, Bool-cases, Option-cases, map,
}
use kwik.Prelude.Map.{lookup, insert, has, Every-delete, Every-lookup}
use kwik.Protocol.Errors.{Result, ok, err, panic}
use kwik.Protocol.Frame.{AckRange, Frame, stream, StreamFrame}
use kwik.Protocol.Packet.{serialize_packet}
use kwik.Stream.Send.{pop_frames, has_buffered}
use kwik.Transport.Acks.{AckState, ack_one, on_ack, seq_loop, ranges_loop}
use kwik.Transport.Acks.Exchange.{on_ack-removes}
use kwik.Transport.Packer.{
  PendingPacket, Packer, Call, next_seq, numbered, send_body, first_attempt,
}
use kwik.Transport.Packer.Registry.{on_ack_path, register_path, unregister_path}
use kwik.Transport.Packer.Flush.{
  Provider, no_session, no_provider, provider, collect_frames, keep_flushing, send_popped,
  after_collection, submit_from_send_stream, flush_stream, after_flush,
}
use kwik.Transport.Packer.Invariant.{
  SoundPacket, SoundMap, IsSound, insert-IsSound, send_body-IsSound,
}

keep_flushing-IsSound :
    (pid sid : ℕ) (more : Bool) (r : Result (Unit {0})) (p : Packer)
    → IsSound p
    → IsSound (keep_flushing pid sid more r p)
unfolding keep_flushing
keep_flushing-IsSound pid sid true (ok u) p v = record { packets = v.packets; unsent = v.unsent }
keep_flushing-IsSound pid sid true (err e) p v = v
keep_flushing-IsSound pid sid true panic p v = v
keep_flushing-IsSound pid sid false r p v = v

send_popped-IsSound :
    (c : Call) (pid sid : ℕ) (more : Bool) (fs : List Frame) (p : Packer)
    → IsSound p
    → IsSound (send_popped c pid sid more fs p).packer
unfolding send_popped
send_popped-IsSound c pid sid more fs p v =
    let seq = next_seq pid p in
    let counted = record p { next_packet_seq = insert pid seq p.next_packet_seq } in
    let pkt = numbered seq fs in
    let body = serialize_packet pkt in
    let sound : IsSound counted = record { packets = v.packets; unsent = v.unsent } in
    elim (Bool-cases (ltb p.max_packet_size (length body))) [
      | inl e ↦ rw e sound
      | inr e ↦
          let s = send_body c pid seq (first_attempt c sid body (some pkt) fs) counted in
          rw e (
            keep_flushing-IsSound pid sid more s.result s.packer (
              send_body-IsSound c pid seq (first_attempt c sid body (some pkt) fs) counted sound
                (record {
                  frames = fs;
                  body = refl;
                  short = ground (arith, e);
                  tried = omega arith;
                  bounded = omega arith;
                })))
    ]

after_collection-IsSound :
    (c : Call) (pid sid : ℕ) (more : Bool) (p : Packer) (r : Result (List StreamFrame))
    → IsSound p
    → IsSound (after_collection c pid sid more p r).packer
unfolding after_collection
after_collection-IsSound c pid sid more p panic v = v
after_collection-IsSound c pid sid more p (err e) v = v
after_collection-IsSound c pid sid more p (ok []) v = v
after_collection-IsSound c pid sid more p (ok (f ∷ fs)) v =
    send_popped-IsSound c pid sid more (map stream (f ∷ fs)) p v

pub submit_from_send_stream-IsSound :
    (c : Call) (pid sid : ℕ) (src : Provider) (p : Packer)
    → IsSound p
    → IsSound (submit_from_send_stream c pid sid src p).0.packer
unfolding submit_from_send_stream
submit_from_send_stream-IsSound c pid sid no_session p v = v
submit_from_send_stream-IsSound c pid sid no_provider p v = v
submit_from_send_stream-IsSound c pid sid (provider s) p v =
    after_collection-IsSound c pid sid (has_buffered (pop_frames p.max_packet_size s).1) p
      (collect_frames p.max_packet_size 0 (pop_frames p.max_packet_size s).0) v

-- OnAck only deletes.
ack_one-SoundMap :
    (max seq : ℕ) (s : AckState PendingPacket)
    → SoundMap max s.pending
    → SoundMap max (ack_one seq s).pending
unfolding ack_one
ack_one-SoundMap max seq s v = elim (Option-cases (lookup seq s.pending)) [
  | inl e ↦ rw (e, ack_one) v
  | inr (packet, e) ↦ rw (e, ack_one) (Every-delete (SoundPacket max) seq s.pending v)
]

-- What each round of a loop over ranges keeps, the loop keeps.
module _ {ℓ κ} {S : Type ℓ} (Q : S → Type κ) (body : ℕ → S → S)
    (keeps : (n : ℕ) (s : S) → Q s → Q (body n s)) where
  seq_loop-keeps :
      (fuel seq largest : ℕ) (s s' : S) → Q s → seq_loop body fuel seq largest s ≡ some s' → Q s'
  unfolding seq_loop
  seq_loop-keeps zero seq largest s s' v h = cc
  seq_loop-keeps (suc fuel) seq largest s s' v h = elim (Bool-cases (leb seq largest)) [
    | inl e ↦
        seq_loop-keeps fuel (add64 seq 1) largest (body seq s) s' (keeps seq s v)
          (rw (e, seq_loop) at h)
    | inr e ↦ let found : some s ≡ some s' = rw (e, seq_loop) at h in subst Q (cc found) v
  ]

  ranges_loop-keeps :
      (fuel : ℕ) (rs : List AckRange) (s s' : S) → Q s → ranges_loop body fuel rs s ≡ some s' → Q s'
  unfolding ranges_loop
  ranges_loop-keeps fuel [] s s' v h = subst Q (cc h) v
  ranges_loop-keeps fuel (r ∷ rs) s s' v h =
      elim (Option-cases (seq_loop body fuel r.smallest r.largest s)) [
        | inl e ↦ let found : none ≡ some s' = rw (e, ranges_loop) at h in cc found
        | inr (s₁, e) ↦
            ranges_loop-keeps fuel rs s₁ s' (seq_loop-keeps fuel r.smallest r.largest s s₁ v e)
              (rw (e, ranges_loop) at h)
      ]

on_ack-SoundMap :
    (max fuel : ℕ) (rs : List AckRange) (s s' : AckState PendingPacket)
    → SoundMap max s.pending
    → on_ack fuel rs s ≡ some s'
    → SoundMap max s'.pending
unfolding on_ack
on_ack-SoundMap max = ranges_loop-keeps (λ s. SoundMap max s.pending) ack_one (ack_one-SoundMap max)

pub on_ack_path-IsSound :
    (fuel pid : ℕ) (rs : List AckRange) (p : Packer)
    → All (λ r. r.largest < 2 ^ 64 - 1) rs
    → All (λ r. r.largest < fuel) rs
    → IsSound p
    → (p' : Packer) × (on_ack_path (suc fuel) pid rs p ≡ some p') × IsSound p'
unfolding on_ack_path
on_ack_path-IsSound fuel pid rs p finite enough v = elim (Option-cases (lookup pid p.pending)) [
  | inl e ↦ (p, rw (e, on_ack_path) refl, v)
  | inr (mp, e) ↦
      let start : AckState PendingPacket = record { pending = mp; acked_count = p.acked_count } in
      let (s, done, seen) = on_ack-removes fuel rs start finite enough in
      let sound =
        Every-lookup (λ pid mp. SoundMap p.max_packet_size mp) pid mp p.pending v.packets e in
      let left = on_ack-SoundMap p.max_packet_size (suc fuel) rs start s sound done in
      (
        record p { pending = insert pid s.pending p.pending; acked_count = s.acked_count },
        rw (e, on_ack_path, done) refl,
        record { packets = (insert-IsSound pid s.pending p v left).packets; unsent = v.unsent },
      )
]

pub register_path-IsSound : (pid : ℕ) (p : Packer) → IsSound p → IsSound (register_path pid p)
unfolding register_path
register_path-IsSound pid p v = elim (Bool-cases (has pid p.paths)) [
  | inl e ↦ rw e v
  | inr e ↦ elim (Bool-cases (has pid p.pending)) [
    | inl k ↦ rw (e, k) (record { packets = v.packets; unsent = v.unsent })
    | inr k ↦
        rw (e, k) (record { packets = (insert-IsSound pid [] p v tt).packets; unsent = v.unsent })
  ]
]

pub unregister_path-IsSound : (pid : ℕ) (p : Packer) → IsSound p → IsSound (unregister_path pid p)
unfolding unregister_path
unregister_path-IsSound pid p v = record {
  packets = Every-delete (λ pid mp. SoundMap p.max_packet_size mp) pid p.pending v.packets;
  unsent = v.unsent;
}

after_flush-IsSound :
    (sid : ℕ) (src : Provider) (p : Packer) → IsSound p → IsSound (after_flush sid src p)
unfolding after_flush
after_flush-IsSound sid no_session p v = record { packets = v.packets; unsent = v.unsent }
after_flush-IsSound sid no_provider p v = record { packets = v.packets; unsent = v.unsent }
after_flush-IsSound sid (provider s) p v = elim (Bool-cases (has_buffered s)) [
  | inl e ↦ rw e v
  | inr e ↦ rw e (record { packets = v.packets; unsent = v.unsent })
]

pub flush_stream-IsSound :
    (c : Call) (pid sid : ℕ) (src : Provider) (p : Packer)
    → IsSound p
    → IsSound (flush_stream c pid sid src p).1.0
unfolding flush_stream
flush_stream-IsSound c pid sid src p v =
    let (s, src') = submit_from_send_stream c pid sid src p in
    elim (Bool-cases (has pid p.paths)) [
      | inl e ↦ rw e (
          after_flush-IsSound sid (submit_from_send_stream c pid sid src p).1
            (submit_from_send_stream c pid sid src p).0.packer
            (submit_from_send_stream-IsSound c pid sid src p v))
      | inr e ↦ rw e (record { packets = v.packets; unsent = v.unsent })
    ]
