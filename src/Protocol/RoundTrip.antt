-- ===== src/Protocol/RoundTrip.antt =====
-- ParseFrame reads back what Serialize wrote.
use kwik.Prelude.{
  ℕ, ◌*◌, ◌≤◌, ◌≡◌, refl, List, [], ◌∷◌, ◌++◌, arith, length, All, append_assoc, Bool, true, false,
  ◌==◌, le→leb,
}
use kwik.Protocol.Errors.{ok}
use kwik.Protocol.Reader.{
  read_byte, make_slice, write_var_int, read_full-append, read_var_int-write_var_int,
}
use kwik.Protocol.Frame.{
  StreamFrame, AckRange, AckFrame, AddPathRespFrame, RelayDataFrame, Frame, stream, ack, ping,
  add_path, add_path_resp, relay_data, open_stream, open_stream_resp, frame_type, flag_byte,
  serialize_stream, serialize_ranges, serialize_ack, serialize_add_path_resp, serialize_relay_data,
  serialize_open_stream_resp, serialize_body, serialize, RangeIsU64, IsBytes, IsWellFormed,
  slice_size,
}
use kwik.Protocol.Parse.{
  read_sized, parse_stream_frame, parse_add_path_frame, parse_add_path_resp_frame,
  parse_relay_data_frame, parse_ranges, parse_ack_frame, parse_open_stream_frame,
  parse_open_stream_resp_frame, parse_body, read_frame, parse_frame,
}

flag_byte-eq_one : (b : Bool) → (flag_byte b == 1) ≡ b
unfolding flag_byte
flag_byte-eq_one true = refl
flag_byte-eq_one false = refl

make_slice_fits :
    (max_alloc size n : ℕ) (src : List ℕ)
    → size * n ≤ max_alloc
    → make_slice max_alloc size n src ≡ ok (tt, src)
unfolding make_slice
make_slice_fits max_alloc size n src h = rw (le→leb (size * n) max_alloc h)

parse_ranges-serialize_ranges :
    (rs : List AckRange) (rest : List ℕ)
    → All RangeIsU64 rs
    → parse_ranges (length rs) (serialize_ranges rs ++ rest) ≡ ok (rs, rest)
unfolding parse_ranges serialize_ranges
parse_ranges-serialize_ranges [] rest h = refl
parse_ranges-serialize_ranges (r ∷ rs) rest h = simp (
  append_assoc,
  read_var_int-write_var_int,
  h.0.0,
  h.0.1,
  parse_ranges-serialize_ranges rs rest h.1,
)

module _ (max_alloc : ℕ) where
  read_sized_lem :
      (bs rest : List ℕ)
      → IsBytes bs
      → length bs ≤ max_alloc
      → read_sized max_alloc (write_var_int (length bs) ++ (bs ++ rest)) ≡ ok (bs, rest)
  unfolding read_sized
  read_sized_lem bs rest h k = simp (
    read_var_int-write_var_int (length bs) (bs ++ rest) h.1,
    make_slice_fits max_alloc 1 (length bs) (bs ++ rest) (omega arith),
    read_full-append,
  )

  parse_stream_frame-serialize_stream :
      (f : StreamFrame) (rest : List ℕ)
      → IsWellFormed (stream f)
      → length f.payload ≤ max_alloc
      → parse_stream_frame max_alloc (serialize_stream f ++ rest) ≡ ok (f, rest)
  unfolding parse_stream_frame serialize_stream read_byte
  parse_stream_frame-serialize_stream f rest h k = simp (
    append_assoc,
    read_var_int-write_var_int,
    h.0,
    h.1,
    read_sized_lem f.payload rest h.2 k,
    flag_byte-eq_one,
  )

  parse_ack_frame-serialize_ack :
      (f : AckFrame) (rest : List ℕ)
      → IsWellFormed (ack f)
      → 16 * length f.ack_ranges ≤ max_alloc
      → parse_ack_frame max_alloc (serialize_ack f ++ rest) ≡ ok (f, rest)
  unfolding parse_ack_frame serialize_ack
  parse_ack_frame-serialize_ack f rest h k = simp (
    append_assoc,
    read_var_int-write_var_int,
    h.0,
    h.1,
    h.3,
    make_slice_fits,
    k,
    parse_ranges-serialize_ranges f.ack_ranges rest h.2,
  )

  parse_add_path_resp_frame-serialize_add_path_resp :
      (f : AddPathRespFrame) (rest : List ℕ)
      → IsWellFormed (add_path_resp f)
      → length f.address ≤ max_alloc
      → parse_add_path_resp_frame max_alloc (serialize_add_path_resp f ++ rest) ≡ ok (f, rest)
  unfolding parse_add_path_resp_frame serialize_add_path_resp
  parse_add_path_resp_frame-serialize_add_path_resp f rest h k =
      simp (append_assoc, read_var_int-write_var_int, h.0, read_sized_lem f.address rest h.1 k)

  parse_relay_data_frame-serialize_relay_data :
      (f : RelayDataFrame) (rest : List ℕ)
      → IsWellFormed (relay_data f)
      → length f.raw_data ≤ max_alloc
      → parse_relay_data_frame max_alloc (serialize_relay_data f ++ rest) ≡ ok (f, rest)
  unfolding parse_relay_data_frame serialize_relay_data
  parse_relay_data_frame-serialize_relay_data f rest h k =
      simp
        (append_assoc, read_var_int-write_var_int, h.0, h.1, read_sized_lem f.raw_data rest h.2 k)

  parse_body-serialize_body :
      (f : Frame) (rest : List ℕ)
      → IsWellFormed f
      → slice_size f ≤ max_alloc
      → parse_body max_alloc (frame_type f) (serialize_body f ++ rest) ≡ ok (f, rest)
  unfolding parse_body serialize_body frame_type slice_size
  parse_body-serialize_body (stream f) rest h k =
      simp (parse_stream_frame-serialize_stream f rest h k)
  parse_body-serialize_body (ack f) rest h k = simp (parse_ack_frame-serialize_ack f rest h k)
  parse_body-serialize_body ping rest h k = refl
  parse_body-serialize_body (add_path a) rest h k =
      unfold parse_add_path_frame in simp (append_assoc, read_sized_lem a rest h k)
  parse_body-serialize_body (add_path_resp f) rest h k =
      simp (parse_add_path_resp_frame-serialize_add_path_resp f rest h k)
  parse_body-serialize_body (relay_data f) rest h k =
      simp (parse_relay_data_frame-serialize_relay_data f rest h k)
  parse_body-serialize_body (open_stream i) rest h k =
      unfold parse_open_stream_frame in simp (read_var_int-write_var_int, h)
  parse_body-serialize_body (open_stream_resp f) rest h k =
      unfold parse_open_stream_resp_frame serialize_open_stream_resp read_byte in
      simp (append_assoc, read_var_int-write_var_int, h, flag_byte-eq_one)

  -- A reader of frames takes from its input exactly the bytes that Serialize wrote for a frame, and
  -- gives that frame, if the frame's fields are in range and its slice can be made.
  pub read_frame-serialize :
      (f : Frame) (rest : List ℕ)
      → IsWellFormed f
      → slice_size f ≤ max_alloc
      → read_frame max_alloc (serialize f ++ rest) ≡ ok (f, rest)
  unfolding read_frame serialize read_byte
  read_frame-serialize f rest h k = parse_body-serialize_body f rest h k

  -- ParseFrame gives back the frame that Serialize wrote, whatever bytes follow it, if the frame's
  -- fields are in range and its slice can be made.
  pub parse_frame-serialize :
      (f : Frame) (rest : List ℕ)
      → IsWellFormed f
      → slice_size f ≤ max_alloc
      → parse_frame max_alloc (serialize f ++ rest) ≡ ok f
  unfolding parse_frame
  parse_frame-serialize f rest h k = simp (read_frame-serialize f rest h k)
