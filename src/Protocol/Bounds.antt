-- ===== src/Protocol/Bounds.antt =====
-- What ParseFrame accepts is in range, and which inputs make it panic.
mod Readers
use kwik.Prelude.{
  ℕ, zero, suc, ◌*◌, ◌≤◌, ◌<◌, ◌≡◌, refl, ap, subst, ◌^◌, List, [], ◌∷◌, ◌++◌, arith, length, inl,
  inr, false, ◌==◌, leb, length-take, Bool-cases, leb→le, append-nil, IsU64, IsByte, All, All-take,
  All-drop,
}
use kwik.Protocol.Errors.{Result, ok, err, panic}
use kwik.Protocol.Reader.{
  Reader, ◌>>=◌, continue, pure, read_byte, read_full, read_var_int, make_slice, write_var_int,
  read_var_int-write_var_int,
}
use kwik.Protocol.Bytes.{be_value, be_value-lt}
use kwik.Protocol.Frame.{
  AckRange, Frame, stream, ack, ping, add_path, add_path_resp, relay_data, open_stream,
  open_stream_resp, serialize, RangeIsU64, IsBytes, IsWellFormed, slice_size,
}
use kwik.Protocol.Parse.{
  read_sized, parse_stream_frame, parse_add_path_frame, parse_add_path_resp_frame, result_of,
  switch, frame_parsers, parse_relay_data_frame, parse_ranges, parse_ack_frame,
  parse_open_stream_frame, parse_open_stream_resp_frame, parse_body, read_frame, parse_frame,
}
use kwik.Protocol.RoundTrip.{parse_frame-serialize}
use kwik.Protocol.Bounds.Readers.{
  Yields, Gives, Yields-continue, Yields-map, >>=-Gives, pure-Gives, read_byte-Gives, IsRead,
  read_full-Gives, read_var_int-Gives, make_slice-Gives, AreRanges, parse_ranges-Gives,
  switch-Gives,
}

module _ (max_alloc : ℕ) where
  abbrev pub IsParsed : Frame → Type 0
  IsParsed f = IsWellFormed f × (slice_size f ≤ max_alloc)

  abbrev IsSized : List ℕ → Type 0
  IsSized bs = IsBytes bs × (length bs ≤ max_alloc)

  read_sized-Gives : Gives IsSized (read_sized max_alloc)
  unfolding read_sized
  read_sized-Gives = >>=-Gives IsU64 IsSized _ _ read_var_int-Gives λ len hl.
      >>=-Gives (λ u. 1 * len ≤ max_alloc) IsSized _ _ (make_slice-Gives max_alloc 1 len)
        λ u fits. λ src h.
          Yields-map (IsRead len) IsSized (read_full len src)
            (λ bs k. ((k.0, rw k.1 hl), rw k.1 (omega arith))) (read_full-Gives len src h)

  parse_stream_frame-Gives : Gives (λ f. IsParsed (stream f)) (parse_stream_frame max_alloc)
  unfolding parse_stream_frame slice_size
  parse_stream_frame-Gives =
      >>=-Gives IsU64 (λ f. IsParsed (stream f)) _ _ read_var_int-Gives
        λ stream_id hs.
          >>=-Gives IsU64 (λ f. IsParsed (stream f)) _ _ read_var_int-Gives
            λ offset ho.
              >>=-Gives IsByte (λ f. IsParsed (stream f)) _ _ read_byte-Gives
                λ fin_byte hb.
                  >>=-Gives IsSized (λ f. IsParsed (stream f)) _ _ read_sized-Gives
                    λ payload hp src h. (((hs, ho, hp.0), hp.1), h)

  parse_add_path_resp_frame-Gives :
      Gives (λ f. IsParsed (add_path_resp f)) (parse_add_path_resp_frame max_alloc)
  unfolding parse_add_path_resp_frame slice_size
  parse_add_path_resp_frame-Gives =
      >>=-Gives IsU64 (λ f. IsParsed (add_path_resp f)) _ _ read_var_int-Gives
        λ path_id hi.
          >>=-Gives IsSized (λ f. IsParsed (add_path_resp f)) _ _ read_sized-Gives
            λ address ha src h. (((hi, ha.0), ha.1), h)

  parse_relay_data_frame-Gives :
      Gives (λ f. IsParsed (relay_data f)) (parse_relay_data_frame max_alloc)
  unfolding parse_relay_data_frame slice_size
  parse_relay_data_frame-Gives =
      >>=-Gives IsU64 (λ f. IsParsed (relay_data f)) _ _ read_var_int-Gives
        λ path_id hi.
          >>=-Gives IsU64 (λ f. IsParsed (relay_data f)) _ _ read_var_int-Gives
            λ stream_id hs.
              >>=-Gives IsSized (λ f. IsParsed (relay_data f)) _ _ read_sized-Gives
                λ raw_data hr src h. (((hi, hs, hr.0), hr.1), h)

  parse_ack_frame-Gives : Gives (λ f. IsParsed (ack f)) (parse_ack_frame max_alloc)
  unfolding parse_ack_frame slice_size
  parse_ack_frame-Gives =
      >>=-Gives IsU64 (λ f. IsParsed (ack f)) _ _ read_var_int-Gives
        λ largest hl.
          >>=-Gives IsU64 (λ f. IsParsed (ack f)) _ _ read_var_int-Gives
            λ delay hd.
              >>=-Gives IsU64 (λ f. IsParsed (ack f)) _ _ read_var_int-Gives
                λ count hc.
                  >>=-Gives (λ u. 16 * count ≤ max_alloc) (λ f. IsParsed (ack f)) _ _
                    (make_slice-Gives max_alloc 16 count)
                    λ u fits.
                      >>=-Gives (AreRanges count) (λ f. IsParsed (ack f)) _ _
                        (parse_ranges-Gives count)
                        λ rs hr src h. (((hl, hd, hr.0, rw hr.1 hc), rw hr.1 fits), h)

  parse_open_stream_resp_frame-Gives :
      Gives (λ f. IsParsed (open_stream_resp f)) parse_open_stream_resp_frame
  unfolding parse_open_stream_resp_frame slice_size
  parse_open_stream_resp_frame-Gives =
      >>=-Gives IsU64 (λ f. IsParsed (open_stream_resp f)) _ _ read_var_int-Gives
        λ stream_id hs.
          >>=-Gives IsByte (λ f. IsParsed (open_stream_resp f)) _ _ read_byte-Gives
            λ ok_byte hb src h. ((hs, omega arith), h)

  as_frame-Gives :
      {A : Type 0} (P : A → Type 0) (p : Reader A) (f : A → Frame)
      → ((a : A) → P a → IsParsed (f a))
      → Gives P p
      → Gives IsParsed (do a ← p; pure (f a))
  as_frame-Gives P p f k h = >>=-Gives P IsParsed p (λ a. pure (f a)) h λ a ha src hs. (k a ha, hs)

  parse_body-Gives : (t : ℕ) → Gives IsParsed (parse_body max_alloc t)
  unfolding parse_body parse_add_path_frame parse_open_stream_frame slice_size
  parse_body-Gives t =
      switch-Gives IsParsed t (frame_parsers max_alloc) _
        (
          as_frame-Gives _ _ stream (λ f h. h) parse_stream_frame-Gives,
          (
            as_frame-Gives _ _ ack (λ f h. h) parse_ack_frame-Gives,
            (
              pure-Gives IsParsed ping (tt, omega arith),
              (
                as_frame-Gives IsSized _ add_path (λ a h. h) read_sized-Gives,
                (
                  as_frame-Gives _ _ add_path_resp (λ f h. h) parse_add_path_resp_frame-Gives,
                  (
                    as_frame-Gives _ _ relay_data (λ f h. h) parse_relay_data_frame-Gives,
                    (
                      as_frame-Gives IsU64 _ open_stream (λ i h. (h, omega arith))
                          read_var_int-Gives,
                      (
                        as_frame-Gives _ _ open_stream_resp (λ f h. h)
                            parse_open_stream_resp_frame-Gives,
                        tt,
                      ),
                    ),
                  ),
                ),
              ),
            ),
          ),
        )
        (λ src h. tt)

  read_frame-Gives : Gives IsParsed (read_frame max_alloc)
  unfolding read_frame
  read_frame-Gives = >>=-Gives IsByte IsParsed _ _ read_byte-Gives λ t h. parse_body-Gives t

  Yields-result_of :
      (P : Frame → Type 0) (r : Result (Frame × List ℕ)) (f : Frame)
      → Yields P r
      → result_of r ≡ ok f
      → P f
  Yields-result_of P (ok (g, rest)) f h e = subst P (cc) h.0
  Yields-result_of P (err x) f h e = cc
  Yields-result_of P panic f h e = cc

  -- A frame that ParseFrame returns for an input of bytes is well-formed, and its slice is within
  -- the runtime's limit.
  pub parse_frame-IsParsed :
      (src : List ℕ) (f : Frame) → All IsByte src → parse_frame max_alloc src ≡ ok f → IsParsed f
  unfolding parse_frame
  parse_frame-IsParsed src f h e =
      Yields-result_of IsParsed (read_frame max_alloc src) f (read_frame-Gives src h) e

  -- Whatever bytes ParseFrame accepts, serializing the frame and parsing that gives the same frame,
  -- also where the bytes were no output of Serialize (a flag byte above 1, trailing bytes).
  pub parse_frame-reparse :
      (src : List ℕ) (f : Frame)
      → All IsByte src
      → parse_frame max_alloc src ≡ ok f
      → parse_frame max_alloc (serialize f) ≡ ok f
  parse_frame-reparse src f h e =
      let p : IsParsed f = parse_frame-IsParsed src f h e in
      rw append-nil at (parse_frame-serialize max_alloc f [] p.0 p.1)

  -- A STREAM frame whose length field is beyond the runtime's limit makes ParseFrame panic, however
  -- few bytes follow the field.
  pub parse_frame-oversized :
      (stream_id offset fin_byte len : ℕ) (rest : List ℕ)
      → IsU64 stream_id
      → IsU64 offset
      → IsU64 len
      → max_alloc < len
      → parse_frame max_alloc (
          0x1
          ∷ (write_var_int stream_id
              ++ (write_var_int offset ++ (fin_byte ∷ (write_var_int len ++ rest)))))
        ≡ panic
  unfolding parse_frame read_frame parse_body parse_stream_frame read_byte read_sized make_slice
  parse_frame-oversized stream_id offset fin_byte len rest hs ho hl big =
      simp (read_var_int-write_var_int, hs, ho, hl, big_test)
    where
      big_test : leb (1 * len) max_alloc ≡ false
      big_test = ground arith
