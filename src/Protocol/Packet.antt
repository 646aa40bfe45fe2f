-- ===== src/Protocol/Packet.antt =====
-- internal/protocol/packet.go: a header, a frame count and the frames, one after another.
pub mod RoundTrip
use kwik.Prelude.{
  ℕ, zero, suc, ◌+◌, ◌-◌, ◌≤◌, ◌<◌, ◌≡◌, List, [], ◌∷◌, ◌++◌, arith, length, drop, take, leb, ltb,
  ◌==◌, if◌then◌else◌, concat, map, ◌&&◌,
}
use kwik.Protocol.Errors.{Result, ok, err, panic, eof, unreasonable_frame_count, guard, ◌>>=◌, ◌>>◌}
use kwik.Protocol.Bytes.{be_value, be_bytes}
use kwik.Protocol.Reader.{Reader, read_byte, read_var_int, write_var_int}
use kwik.Protocol.Frame.{Frame, serialize}
use kwik.Protocol.Parse.{parse_frame}

-- HeaderType is iota: long is 0 and short is 1. A received header may hold any byte.
abbrev pub header_type_long : ℕ
header_type_long = 0

abbrev pub header_type_short : ℕ
header_type_short = 1

pub record Header : Type 0 where
  pub header_type : ℕ
  pub packet_num : ℕ

pub record Packet : Type 0 where
  pub header : Header
  pub payload : List Frame

unfoldable pub serialize_header : Header → List ℕ
serialize_header h = h.header_type ∷ write_var_int h.packet_num

unfoldable pub serialize_frames : List Frame → List ℕ
serialize_frames [] = []
serialize_frames (f ∷ fs) = serialize f ++ serialize_frames fs

unfoldable pub serialize_packet : Packet → List ℕ
serialize_packet p =
    serialize_header p.header ++ (write_var_int (length p.payload) ++ serialize_frames p.payload)

unfoldable pub deserialize_header : Reader Header
deserialize_header src = do
  (ht, r) ← read_byte src
  (packet_num, r') ← read_var_int r
  ok (record { header_type = ht; packet_num = packet_num }, r')

-- A leading length of four bytes that fits what follows is taken off.
unfoldable pub strip_length : List ℕ → List ℕ
strip_length src =
    if leb 4 (length src) && (be_value (take 4 src) == length src - 4) then drop 4 src else src

module _ (max_alloc : ℕ) where
  -- The loop over the frame count. `src` is the whole packet and `r` what the reader has left. The
  -- reader is put back after its look at the type byte, and moves on by what it was seen to read.
  unfoldable pub deserialize_frames : ℕ → List ℕ → List ℕ → Result (List Frame)
  deserialize_frames zero src r = ok []
  deserialize_frames (suc count) src r =
      let frame_start = length r in
      let consumed = length src - length r in
      let remaining = drop consumed src in
      do
        _ ← read_byte r
        frame ← parse_frame max_alloc remaining
        let after = length r
        let skipped = frame_start - after
        frames ← deserialize_frames count src (if ltb 0 skipped then drop skipped r else r)
        ok (frame ∷ frames)

  unfoldable pub deserialize_body : List ℕ → Result Packet
  deserialize_body src = do
    (header, r) ← deserialize_header src
    (count, r') ← read_var_int r
    guard (leb count 10000) (unreasonable_frame_count count)
    payload ← deserialize_frames count src r'
    ok (record { header = header; payload = payload })

  unfoldable pub deserialize_packet : List ℕ → Result Packet
  deserialize_packet src = deserialize_body (strip_length src)
