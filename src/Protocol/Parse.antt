-- ===== src/Protocol/Parse.antt =====
-- internal/protocol/frame.go: ParseFrame and the parsers of the frame types. `max_alloc` is the
-- size beyond which the Go runtime panics in make.
use kwik.Prelude.{ℕ, zero, suc, List, [], ◌∷◌, ◌==◌, if◌then◌else◌}
use kwik.Protocol.Errors.{Result, ok, err, panic, unknown_frame_type}
use kwik.Protocol.Reader.{Reader, ◌>>=◌, ◌>>◌, pure, read_byte, read_full, read_var_int, make_slice}
use kwik.Protocol.Frame.{
  StreamFrame, AckRange, AckFrame, AddPathRespFrame, RelayDataFrame, OpenStreamRespFrame, Frame,
  stream, ack, ping, add_path, add_path_resp, relay_data, open_stream, open_stream_resp,
}

-- switch t { case k: p; ...; default: d }
unfoldable pub switch : ℕ → List (ℕ × Reader Frame) → Reader Frame → Reader Frame
switch t [] d = d
switch t ((k, p) ∷ cases) d = if t == k then p else switch t cases d

abbrev pub result_of : {A : Type 0} → Result (A × List ℕ) → Result A
result_of (ok (a, rest)) = ok a
result_of (err e) = err e
result_of panic = panic

-- The loop over `count` ranges.
unfoldable pub parse_ranges : ℕ → Reader (List AckRange)
parse_ranges zero = pure []
parse_ranges (suc count) = do
  small ← read_var_int
  large ← read_var_int
  ranges ← parse_ranges count
  pure (record { smallest = small; largest = large } ∷ ranges)

unfoldable pub parse_open_stream_frame : Reader ℕ
parse_open_stream_frame = read_var_int

unfoldable pub parse_open_stream_resp_frame : Reader OpenStreamRespFrame
parse_open_stream_resp_frame = do
  stream_id ← read_var_int
  ok_byte ← read_byte
  pure (record { stream_id = stream_id; success = ok_byte == 1 })

module _ (max_alloc : ℕ) where
  -- A length field, the slice made for it, and the bytes read into that.
  unfoldable pub read_sized : Reader (List ℕ)
  read_sized = do len ← read_var_int; make_slice max_alloc 1 len; read_full len

  unfoldable pub parse_stream_frame : Reader StreamFrame
  parse_stream_frame = do
    stream_id ← read_var_int
    offset ← read_var_int
    fin_byte ← read_byte
    payload ← read_sized
    pure (record { stream_id = stream_id; offset = offset; fin = fin_byte == 1; payload = payload })

  unfoldable pub parse_add_path_frame : Reader (List ℕ)
  parse_add_path_frame = read_sized

  unfoldable pub parse_add_path_resp_frame : Reader AddPathRespFrame
  parse_add_path_resp_frame = do
    path_id ← read_var_int
    address ← read_sized
    pure (record { address = address; path_id = path_id })

  unfoldable pub parse_relay_data_frame : Reader RelayDataFrame
  parse_relay_data_frame = do
    path_id ← read_var_int
    stream_id ← read_var_int
    raw_data ← read_sized
    pure (record { relay_path_id = path_id; dest_stream_id = stream_id; raw_data = raw_data })

  unfoldable pub parse_ack_frame : Reader AckFrame
  parse_ack_frame = do
    largest ← read_var_int
    delay ← read_var_int
    count ← read_var_int
    make_slice max_alloc 16 count
    ranges ← parse_ranges count
    pure (record { largest_acked = largest; ack_delay = delay; ack_ranges = ranges })

  -- The cases of the switch on the type byte.
  unfoldable pub frame_parsers : List (ℕ × Reader Frame)
  frame_parsers =
      (0x1, do f ← parse_stream_frame; pure (stream f))
      ∷ (0x2, do f ← parse_ack_frame; pure (ack f))
      ∷ (0x5, pure ping)
      ∷ (0x6, do a ← parse_add_path_frame; pure (add_path a))
      ∷ (0x7, do f ← parse_add_path_resp_frame; pure (add_path_resp f))
      ∷ (0x8, do f ← parse_relay_data_frame; pure (relay_data f))
      ∷ (0x9, do i ← parse_open_stream_frame; pure (open_stream i))
      ∷ (0xA, do f ← parse_open_stream_resp_frame; pure (open_stream_resp f))
      ∷ []

  unfoldable pub parse_body : ℕ → Reader Frame
  unfolding switch frame_parsers
  parse_body t = switch t frame_parsers λ src. err (unknown_frame_type t)

  -- ParseFrame with what its reader has left.
  unfoldable pub read_frame : Reader Frame
  read_frame = do t ← read_byte; parse_body t

  -- ParseFrame drops its reader, and with it where the frame ended.
  unfoldable pub parse_frame : List ℕ → Result Frame
  parse_frame src = result_of (read_frame src)
