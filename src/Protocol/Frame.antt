-- ===== src/Protocol/Frame.antt =====
-- internal/protocol/frame.go: the frame types and their Serialize methods. Writes into a
-- bytes.Buffer do not fail, so a Serialize method is a function into bytes.
use kwik.Prelude.{ℕ, List, [], ◌∷◌, ◌++◌, length, IsU64, IsByte, All, Bool, true, false, ◌*◌}
use kwik.Protocol.Reader.{write_var_int}

pub record StreamFrame : Type 0 where
  pub stream_id : ℕ
  pub offset : ℕ
  pub fin : Bool
  pub payload : List ℕ

pub record AckRange : Type 0 where
  pub smallest : ℕ
  pub largest : ℕ

pub record AckFrame : Type 0 where
  pub largest_acked : ℕ
  pub ack_delay : ℕ
  pub ack_ranges : List AckRange

pub record AddPathRespFrame : Type 0 where
  pub address : List ℕ
  pub path_id : ℕ

pub record RelayDataFrame : Type 0 where
  pub relay_path_id : ℕ
  pub dest_stream_id : ℕ
  pub raw_data : List ℕ

pub record OpenStreamRespFrame : Type 0 where
  pub stream_id : ℕ
  pub success : Bool

-- The types that implement the interface Frame. An address is the bytes of its string.
pub data Frame : Type 0 where
  stream : StreamFrame → Frame
  ack : AckFrame → Frame
  ping : Frame
  add_path : List ℕ → Frame
  add_path_resp : AddPathRespFrame → Frame
  relay_data : RelayDataFrame → Frame
  open_stream : ℕ → Frame
  open_stream_resp : OpenStreamRespFrame → Frame

-- The constants FrameType...
unfoldable pub frame_type : Frame → ℕ
frame_type (stream f) = 0x1
frame_type (ack f) = 0x2
frame_type ping = 0x5
frame_type (add_path a) = 0x6
frame_type (add_path_resp f) = 0x7
frame_type (relay_data f) = 0x8
frame_type (open_stream i) = 0x9
frame_type (open_stream_resp f) = 0xA

unfoldable pub flag_byte : Bool → ℕ
flag_byte true = 1
flag_byte false = 0

-- A length field and the bytes that it counts.
abbrev pub sized : List ℕ → List ℕ
sized bs = write_var_int (length bs) ++ bs

unfoldable pub serialize_stream : StreamFrame → List ℕ
serialize_stream f =
    write_var_int f.stream_id ++ (write_var_int f.offset ++ (flag_byte f.fin ∷ sized f.payload))

unfoldable pub serialize_ranges : List AckRange → List ℕ
serialize_ranges [] = []
serialize_ranges (r ∷ rs) =
    write_var_int r.smallest ++ (write_var_int r.largest ++ serialize_ranges rs)

unfoldable pub serialize_ack : AckFrame → List ℕ
serialize_ack f =
    write_var_int f.largest_acked
    ++ (write_var_int f.ack_delay
        ++ (write_var_int (length f.ack_ranges) ++ serialize_ranges f.ack_ranges))

unfoldable pub serialize_add_path_resp : AddPathRespFrame → List ℕ
serialize_add_path_resp f = write_var_int f.path_id ++ sized f.address

unfoldable pub serialize_relay_data : RelayDataFrame → List ℕ
serialize_relay_data f =
    write_var_int f.relay_path_id ++ (write_var_int f.dest_stream_id ++ sized f.raw_data)

unfoldable pub serialize_open_stream_resp : OpenStreamRespFrame → List ℕ
serialize_open_stream_resp f = write_var_int f.stream_id ++ (flag_byte f.success ∷ [])

-- What follows the type byte.
unfoldable pub serialize_body : Frame → List ℕ
serialize_body (stream f) = serialize_stream f
serialize_body (ack f) = serialize_ack f
serialize_body ping = []
serialize_body (add_path a) = sized a
serialize_body (add_path_resp f) = serialize_add_path_resp f
serialize_body (relay_data f) = serialize_relay_data f
serialize_body (open_stream i) = write_var_int i
serialize_body (open_stream_resp f) = serialize_open_stream_resp f

unfoldable pub serialize : Frame → List ℕ
serialize f = frame_type f ∷ serialize_body f

abbrev pub RangeIsU64 : AckRange → Type 0
RangeIsU64 r = IsU64 r.smallest × IsU64 r.largest

-- The fields hold Go values: uint64 numbers, bytes, and slices whose length is an int.
abbrev pub IsBytes : List ℕ → Type 0
IsBytes bs = All IsByte bs × IsU64 (length bs)

abbrev pub IsWellFormed : Frame → Type 0
IsWellFormed (stream f) = IsU64 f.stream_id × IsU64 f.offset × IsBytes f.payload
IsWellFormed (ack f) =
    IsU64 f.largest_acked
    × IsU64 f.ack_delay
    × All RangeIsU64 f.ack_ranges
    × IsU64 (length f.ack_ranges)
IsWellFormed ping = Unit
IsWellFormed (add_path a) = IsBytes a
IsWellFormed (add_path_resp f) = IsU64 f.path_id × IsBytes f.address
IsWellFormed (relay_data f) = IsU64 f.relay_path_id × IsU64 f.dest_stream_id × IsBytes f.raw_data
IsWellFormed (open_stream i) = IsU64 i
IsWellFormed (open_stream_resp f) = IsU64 f.stream_id

-- The largest slice that the parser makes for the frame, in bytes.
unfoldable pub slice_size : Frame → ℕ
slice_size (stream f) = length f.payload
slice_size (ack f) = 16 * length f.ack_ranges
slice_size ping = 0
slice_size (add_path a) = length a
slice_size (add_path_resp f) = length f.address
slice_size (relay_data f) = length f.raw_data
slice_size (open_stream i) = 0
slice_size (open_stream_resp f) = 0
