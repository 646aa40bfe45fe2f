-- ===== src/Protocol/Tests.antt =====
-- Concrete frames and packets, and the theorems of internal/protocol at them.
use kwik.Prelude.{ℕ, ◌^◌, ◌<◌, ◌≡◌, refl, List, [], ◌∷◌, ◌++◌, arith, length, true, ◌⊎◌, replicate}
use kwik.Protocol.Errors.{ok, err, panic, eof, unexpected_eof}
use kwik.Protocol.Bytes.{be_bytes, be_value}
use kwik.Protocol.Reader.{write_var_int, read_byte, read_full, read_var_int, make_slice}
use kwik.Protocol.Frame.{
  StreamFrame, stream, ping, open_stream, frame_type, flag_byte, serialize_stream, serialize_body,
  serialize, slice_size,
}
use kwik.Protocol.Parse.{
  switch, frame_parsers, read_sized, parse_stream_frame, parse_body, read_frame, parse_frame,
}
use kwik.Protocol.RoundTrip.{parse_frame-serialize}
use kwik.Protocol.Prefix.{parse_frame-truncated}
use kwik.Protocol.Bounds.{parse_frame-oversized}
use kwik.Protocol.Packet.{
  Header, Packet, serialize_packet, serialize_frames, serialize_header, deserialize_packet,
}
use kwik.Protocol.Packet.RoundTrip.{framed, deserialize_packet-serialize_packet}

abbrev max_alloc : ℕ
max_alloc = 2 ^ 48

abbrev hello : StreamFrame
hello = record { stream_id = 1; offset = 7; fin = true; payload = 104 ∷ 105 ∷ [] }

abbrev hello_bytes : List ℕ
hello_bytes =
    1 ∷ 0 ∷ 0 ∷ 0 ∷ 0 ∷ 0 ∷ 0 ∷ 0 ∷ 1 ∷ 0 ∷ 0 ∷ 0 ∷ 0 ∷ 0 ∷ 0 ∷ 0 ∷ 7 ∷ 1 ∷ 0 ∷ 0 ∷ 0 ∷ 0 ∷ 0 ∷ 0
    ∷ 0 ∷ 2 ∷ 104 ∷ 105 ∷ []

serialize-hello : serialize (stream hello) ≡ hello_bytes
unfolding serialize serialize_body serialize_stream frame_type flag_byte write_var_int be_bytes
serialize-hello = refl

parse_hello : parse_frame max_alloc hello_bytes ≡ ok (stream hello)
unfolding parse_frame read_frame parse_body switch frame_parsers parse_stream_frame read_sized
    read_byte read_full read_var_int make_slice be_value
parse_hello = refl

parse_frame-serialize_example :
    parse_frame max_alloc (serialize (stream hello) ++ (9 ∷ [])) ≡ ok (stream hello)
unfolding slice_size
parse_frame-serialize_example =
    parse_frame-serialize max_alloc (stream hello) (9 ∷ []) (omega arith) (omega arith)

parse_frame-truncated_example :
    (parse_frame max_alloc (0x9 ∷ 0 ∷ 0 ∷ []) ≡ err eof)
    ⊎ (parse_frame max_alloc (0x9 ∷ 0 ∷ 0 ∷ []) ≡ err unexpected_eof)
unfolding slice_size serialize serialize_body frame_type write_var_int be_bytes
parse_frame-truncated_example =
    parse_frame-truncated max_alloc (open_stream 3) (0x9 ∷ 0 ∷ 0 ∷ []) (0 ∷ 0 ∷ 0 ∷ 0 ∷ 3 ∷ []) 0
      (omega arith) (omega arith) refl

parse_frame-oversized_example :
    parse_frame max_alloc
      (0x1 ∷ (write_var_int 1 ++ (write_var_int 0 ++ (0 ∷ (write_var_int (2 ^ 63) ++ [])))))
    ≡ panic
parse_frame-oversized_example =
    parse_frame-oversized max_alloc 1 0 0 (2 ^ 63) [] (omega arith) (omega arith) (omega arith)
      (omega arith)

abbrev start : Header
start = record { header_type = 0; packet_num = 5 }

abbrev mixed : Packet
mixed = record { header = start; payload = stream hello ∷ ping ∷ [] }

abbrev single : Packet
single = record { header = start; payload = stream hello ∷ [] }

abbrev many : Packet
many = record { header = start; payload = replicate 10001 ping }

mixed_size : length (serialize_packet mixed) < 2 ^ 32
unfolding serialize_packet serialize_header serialize_frames serialize serialize_body
    serialize_stream write_var_int be_bytes
mixed_size = omega arith

single_size : length (serialize_packet single) < 2 ^ 32
unfolding serialize_packet serialize_header serialize_frames serialize serialize_body
    serialize_stream write_var_int be_bytes
single_size = omega arith

many_size : length (serialize_packet many) < 2 ^ 32
unfolding serialize_packet serialize_header serialize_frames serialize serialize_body frame_type
    write_var_int be_bytes
many_size = omega arith

deserialize_packet-serialize_packet_example :
    deserialize_packet max_alloc (framed (serialize_packet mixed))
    ≡ ok (record { header = start; payload = stream hello ∷ stream hello ∷ [] })
unfolding slice_size
deserialize_packet-serialize_packet_example =
    deserialize_packet-serialize_packet max_alloc mixed (omega arith) (omega arith) (omega arith)
      mixed_size
