-- ===== src/Transport/AckSender/Tests.antt =====
-- multiplexer.go, processAckRequest: the theorem at concrete data.
use kwik.Prelude.{ℕ, ◌≡◌, refl, List, [], ◌∷◌, none, some, arith}
use kwik.Prelude.Map.{lookup, delete}
use kwik.Protocol.Bytes.{be_bytes}
use kwik.Protocol.Errors.{ok}
use kwik.Protocol.Reader.{write_var_int}
use kwik.Protocol.Frame.{
  AckRange, ack, slice_size, serialize, serialize_body, serialize_ack, serialize_ranges, frame_type,
}
use kwik.Protocol.Packet.{deserialize_packet, serialize_packet, serialize_header, serialize_frames}
use kwik.Transport.Acks.{
  contains, in_ranges, get_ack_ranges, group_sorted, group, sort, insert_sorted,
}
use kwik.Transport.Packer.{Packer, Call, new_packer, numbered, next_seq}
use kwik.Transport.AckSender.{
  Received, ack_frame, largest_of, process_ack_request, process_ack_request-get_ack_ranges,
}

abbrev call : Call
call = record { quic_stream = 0; now = 7; reply = none }

abbrev packer : Packer
packer = record (new_packer 1048576) { paths = (1, tt) ∷ [] }

abbrev received : Received
received = (1, 3 ∷ 1 ∷ 2 ∷ []) ∷ []

abbrev range : AckRange
range = record { smallest = 1; largest = 3 }

process_ack_request-get_ack_ranges_example :
    let a = process_ack_request 5 call 1 received packer in
    (bytes : List ℕ) × (a.writes ≡ record { path = 1; carrier = 0; bytes = bytes } ∷ [])
    × (deserialize_packet 1000 bytes ≡ ok (numbered 1 (ack (ack_frame range []) ∷ [])))
    × ((n : ℕ) → in_ranges n (range ∷ []) ≡ contains n (3 ∷ 1 ∷ 2 ∷ []))
    × (a.received ≡ some [])
unfolding new_packer next_seq lookup delete get_ack_ranges group_sorted group sort insert_sorted
    slice_size ack_frame largest_of serialize_packet serialize_header serialize_frames serialize
    serialize_body serialize_ack serialize_ranges frame_type write_var_int be_bytes
process_ack_request-get_ack_ranges_example =
    process_ack_request-get_ack_ranges 1000 4 call 1 received packer (3 ∷ 1 ∷ 2 ∷ []) range [] refl
      refl (omega arith) (omega arith, (omega arith, (omega arith, tt))) refl refl (omega arith)
      (omega arith) (omega arith, omega arith) refl
