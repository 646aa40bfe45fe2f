-- ===== src/Transport/Packer/Registry.antt =====
-- internal/transport/packer.go: what else changes the pending packets of a Packer: OnAck,
-- RegisterPath, UnregisterPath and CancelFramesForStream.
use kwik.Prelude.{ℕ, List, [], ◌∷◌, Bool, false, Option, none, some, ◌==◌, ◌||◌, if◌then◌else◌}
use kwik.Prelude.Map.{Map, lookup, insert, delete, has}
use kwik.Protocol.Frame.{AckRange}
use kwik.Transport.Acks.{on_ack}
use kwik.Transport.Packer.{FrameMetadata, PendingPacket, Packer}

-- OnAck, with the fuel of its loops.
unfoldable pub on_ack_path : ℕ → ℕ → List AckRange → Packer → Option Packer
on_ack_path fuel pid ranges p = elim (lookup pid p.pending) [
  | none ↦ some p
  | some mp ↦ elim (on_ack fuel ranges (record { pending = mp; acked_count = p.acked_count })) [
    | none ↦ none
    | some s ↦
        some (record p { pending = insert pid s.pending p.pending; acked_count = s.acked_count })
  ]
]

unfoldable pub register_path : ℕ → Packer → Packer
register_path pid p = if has pid p.paths then p else record p {
  next_packet_seq =
      if has pid p.next_packet_seq then p.next_packet_seq else insert pid 0 p.next_packet_seq;
  pending = if has pid p.pending then p.pending else insert pid [] p.pending;
  paths = insert pid tt p.paths;
}

unfoldable pub unregister_path : ℕ → Packer → Packer
unregister_path pid p = record p {
  paths = delete pid p.paths;
  pending = delete pid p.pending;
  next_packet_seq = delete pid p.next_packet_seq;
}

unfoldable pub carries : ℕ → List FrameMetadata → Bool
carries sid [] = false
carries sid (i ∷ infos) = i.stream_id == sid || carries sid infos

-- The inner loop of CancelFramesForStream.
unfoldable pub cancel_packets : ℕ → Map PendingPacket → Map PendingPacket
cancel_packets sid [] = []
cancel_packets sid (entry ∷ mp) =
    let rest = cancel_packets sid mp in
    if carries sid entry.1.frame_info then rest else entry ∷ rest

-- A map that is empty is deleted.
abbrev pub keep_path : ℕ → Map PendingPacket → Map (Map PendingPacket) → Map (Map PendingPacket)
keep_path pid [] rest = rest
keep_path pid (entry ∷ left) rest = (pid, entry ∷ left) ∷ rest

-- The outer loop.
unfoldable pub cancel_paths : ℕ → Map (Map PendingPacket) → Map (Map PendingPacket)
cancel_paths sid [] = []
cancel_paths sid (entry ∷ pending) =
    keep_path entry.0 (cancel_packets sid entry.1) (cancel_paths sid pending)

unfoldable pub cancel_frames_for_stream : ℕ → Packer → Packer
cancel_frames_for_stream sid p = record p { pending = cancel_paths sid p.pending }
