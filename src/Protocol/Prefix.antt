-- ===== src/Protocol/Prefix.antt =====
-- The parsers do not look past what they read: more input changes no result but an end of file.
use kwik.Prelude.{
  ℕ, zero, suc, ◌*◌, ◌≤◌, ◌≡◌, refl, All, sym, ap, ◌∙◌, List, [], ◌∷◌, ◌++◌, arith, length, ◌⊎◌,
  inl, inr, ◌==◌, leb, length-append, take-append_le, drop-append_le, Bool-cases, le→leb, leb→le,
  append-nil,
}
use kwik.Protocol.Errors.{Result, ok, err, panic, eof, unexpected_eof}
use kwik.Protocol.Reader.{
  Reader, ◌>>=◌, continue, pure, read_byte, read_full, read_var_int, make_slice,
}
use kwik.Protocol.Bytes.{be_value}
use kwik.Protocol.Frame.{
  Frame, stream, ack, ping, add_path, add_path_resp, relay_data, open_stream, open_stream_resp,
  serialize, IsWellFormed, slice_size,
}
use kwik.Protocol.Parse.{
  read_sized, parse_stream_frame, parse_add_path_frame, parse_add_path_resp_frame, result_of,
  switch, frame_parsers, parse_relay_data_frame, parse_ranges, parse_ack_frame,
  parse_open_stream_frame, parse_open_stream_resp_frame, parse_body, read_frame, parse_frame,
}
use kwik.Protocol.RoundTrip.{read_frame-serialize}

-- The second result is that of an input with `more` behind that of the first.
abbrev pub Grows : {A : Type 0} → List ℕ → Result (A × List ℕ) → Result (A × List ℕ) → Type 0
Grows more (ok (a, rest)) r = r ≡ ok (a, rest ++ more)
Grows more (err eof) r = Unit
Grows more (err unexpected_eof) r = Unit
Grows more (err e) r = r ≡ err e
Grows more panic r = r ≡ panic

abbrev pub IsLocal : {A : Type 0} → Reader A → Type 0
IsLocal p = (src more : List ℕ) → Grows more (p src) (p (src ++ more))

Grows-continue :
    {A B : Type 0} (f : A → Reader B) (more : List ℕ) (r r' : Result (A × List ℕ))
    → ((a : A) → IsLocal (f a))
    → Grows more r r'
    → Grows more (continue r f) (continue r' f)
Grows-continue f more (ok (a, rest)) r' local g = rw g (local a rest more)
Grows-continue f more (err eof) r' local g = tt
Grows-continue f more (err unexpected_eof) r' local g = tt
Grows-continue f more (err _) r' local g = ap (λ r. continue r f) g
Grows-continue f more panic r' local g = ap (λ r. continue r f) g

>>=-IsLocal :
    {A B : Type 0} (m : Reader A) (f : A → Reader B)
    → IsLocal m
    → ((a : A) → IsLocal (f a))
    → IsLocal (m >>= f)
>>=-IsLocal m f hm hf src more = Grows-continue f more (m src) (m (src ++ more)) hf (hm src more)

pure-IsLocal : {A : Type 0} (a : A) → IsLocal (pure a)
pure-IsLocal a src more = refl

read_byte-IsLocal : IsLocal read_byte
unfolding read_byte
read_byte-IsLocal [] more = tt
read_byte-IsLocal (b ∷ src) more = refl

make_slice-IsLocal : (max_alloc size n : ℕ) → IsLocal (make_slice max_alloc size n)
unfolding make_slice
make_slice-IsLocal max_alloc size n src more = elim (Bool-cases (leb (size * n) max_alloc)) [
  | inl fits ↦ rw fits
  | inr big ↦ rw big
]

read_full-IsLocal : (n : ℕ) → IsLocal (read_full n)
unfolding read_full
read_full-IsLocal n src more = elim (Bool-cases (leb n (length src))) [
  | inl enough ↦ rw (
    enough,
    le→leb n (length (src ++ more))
        (omega (arith, leb→le n (length src) enough, length-append src more)),
    take-append_le n src more (leb→le n (length src) enough),
    drop-append_le n src more (leb→le n (length src) enough),
  )
  | inr short ↦ rw short (elim (Bool-cases (length src == 0)) [ inl e ↦ rw e tt | inr e ↦ rw e tt ])
]

read_var_int-IsLocal : IsLocal read_var_int
unfolding read_var_int
read_var_int-IsLocal =
    >>=-IsLocal (read_full 8) (λ buf. pure (be_value buf)) (read_full-IsLocal 8)
      λ buf. pure-IsLocal (be_value buf)

switch-IsLocal :
    (t : ℕ) (cases : List (ℕ × Reader Frame)) (d : Reader Frame)
    → All (λ c. IsLocal c.1) cases
    → IsLocal d
    → IsLocal (switch t cases d)
unfolding switch
switch-IsLocal t [] d hs hd src more = hd src more
switch-IsLocal t ((k, p) ∷ cases) d hs hd src more = elim (Bool-cases (t == k)) [
  | inl e ↦ rw e (hs.0 src more)
  | inr e ↦ rw e (switch-IsLocal t cases d hs.1 hd src more)
]

parse_ranges-IsLocal : (n : ℕ) → IsLocal (parse_ranges n)
unfolding parse_ranges
parse_ranges-IsLocal zero = pure-IsLocal []
parse_ranges-IsLocal (suc n) = >>=-IsLocal _ _ read_var_int-IsLocal λ small.
    >>=-IsLocal _ _ read_var_int-IsLocal
      λ large. >>=-IsLocal _ _ (parse_ranges-IsLocal n) λ ranges. pure-IsLocal _

as_frame-IsLocal :
    {A : Type 0} (p : Reader A) (f : A → Frame) → IsLocal p → IsLocal (do a ← p; pure (f a))
as_frame-IsLocal p f h = >>=-IsLocal p (λ a. pure (f a)) h λ a. pure-IsLocal (f a)

parse_open_stream_resp_frame-IsLocal : IsLocal parse_open_stream_resp_frame
unfolding parse_open_stream_resp_frame
parse_open_stream_resp_frame-IsLocal =
    >>=-IsLocal _ _ read_var_int-IsLocal
      λ stream_id. >>=-IsLocal _ _ read_byte-IsLocal λ ok_byte. pure-IsLocal _

-- How many bytes a successful parser leaves.
abbrev rest_length : Result (Frame × List ℕ) → ℕ
rest_length (ok (f, rest)) = length rest
rest_length (err e) = 0
rest_length panic = 0

-- A result whose input is a proper prefix of a frame is an end of file.
Grows-eof :
    (f : Frame) (x : ℕ) (back : List ℕ) (r r' : Result (Frame × List ℕ))
    → Grows (x ∷ back) r r'
    → r' ≡ ok (f, [])
    → (result_of r ≡ err eof) ⊎ (result_of r ≡ err unexpected_eof)
Grows-eof f x back (ok (g, rest)) r' h e =
    absurd (omega (arith, length-append rest (x ∷ back), ap (rest_length) (sym h ∙ e)))
Grows-eof f x back (err eof) r' h e = inl refl
Grows-eof f x back (err unexpected_eof) r' h e = inr refl
Grows-eof f x back (err _) r' h e = cc
Grows-eof f x back panic r' h e = cc

module _ (max_alloc : ℕ) where
  read_sized-IsLocal : IsLocal (read_sized max_alloc)
  unfolding read_sized
  read_sized-IsLocal =
      >>=-IsLocal _ _ read_var_int-IsLocal
        λ len. >>=-IsLocal _ _ (make_slice-IsLocal max_alloc 1 len) λ u. read_full-IsLocal len

  parse_stream_frame-IsLocal : IsLocal (parse_stream_frame max_alloc)
  unfolding parse_stream_frame
  parse_stream_frame-IsLocal = >>=-IsLocal _ _ read_var_int-IsLocal λ stream_id.
      >>=-IsLocal _ _ read_var_int-IsLocal λ offset.
        >>=-IsLocal _ _ read_byte-IsLocal
          λ fin_byte. >>=-IsLocal _ _ read_sized-IsLocal λ payload. pure-IsLocal _

  parse_add_path_resp_frame-IsLocal : IsLocal (parse_add_path_resp_frame max_alloc)
  unfolding parse_add_path_resp_frame
  parse_add_path_resp_frame-IsLocal =
      >>=-IsLocal _ _ read_var_int-IsLocal
        λ path_id. >>=-IsLocal _ _ read_sized-IsLocal λ address. pure-IsLocal _

  parse_relay_data_frame-IsLocal : IsLocal (parse_relay_data_frame max_alloc)
  unfolding parse_relay_data_frame
  parse_relay_data_frame-IsLocal = >>=-IsLocal _ _ read_var_int-IsLocal λ path_id.
      >>=-IsLocal _ _ read_var_int-IsLocal
        λ stream_id. >>=-IsLocal _ _ read_sized-IsLocal λ raw_data. pure-IsLocal _

  parse_ack_frame-IsLocal : IsLocal (parse_ack_frame max_alloc)
  unfolding parse_ack_frame
  parse_ack_frame-IsLocal = >>=-IsLocal _ _ read_var_int-IsLocal λ largest.
      >>=-IsLocal _ _ read_var_int-IsLocal λ delay. >>=-IsLocal _ _ read_var_int-IsLocal λ count.
        >>=-IsLocal _ _ (make_slice-IsLocal max_alloc 16 count)
          λ u. >>=-IsLocal _ _ (parse_ranges-IsLocal count) λ ranges. pure-IsLocal _

  parse_body-IsLocal : (t : ℕ) → IsLocal (parse_body max_alloc t)
  unfolding parse_body parse_add_path_frame parse_open_stream_frame
  parse_body-IsLocal t =
      switch-IsLocal t (frame_parsers max_alloc) _
        (
          as_frame-IsLocal _ stream parse_stream_frame-IsLocal,
          (
            as_frame-IsLocal _ ack parse_ack_frame-IsLocal,
            (
              pure-IsLocal ping,
              (
                as_frame-IsLocal _ add_path read_sized-IsLocal,
                (
                  as_frame-IsLocal _ add_path_resp parse_add_path_resp_frame-IsLocal,
                  (
                    as_frame-IsLocal _ relay_data parse_relay_data_frame-IsLocal,
                    (
                      as_frame-IsLocal _ open_stream read_var_int-IsLocal,
                      (
                        as_frame-IsLocal _ open_stream_resp parse_open_stream_resp_frame-IsLocal,
                        tt,
                      ),
                    ),
                  ),
                ),
              ),
            ),
          ),
        )
        (λ src more. refl)

  pub read_frame-IsLocal : IsLocal (read_frame max_alloc)
  unfolding read_frame
  read_frame-IsLocal = >>=-IsLocal _ _ read_byte-IsLocal parse_body-IsLocal

  -- On every proper prefix of what Serialize wrote for a well-formed frame whose slices make can
  -- allocate, ParseFrame reports the end of the input: it returns no frame, no other error, and does
  -- not panic.
  pub parse_frame-truncated :
      (f : Frame) (front back : List ℕ) (x : ℕ)
      → IsWellFormed f
      → slice_size f ≤ max_alloc
      → serialize f ≡ front ++ (x ∷ back)
      → (parse_frame max_alloc front ≡ err eof) ⊎ (parse_frame max_alloc front ≡ err unexpected_eof)
  unfolding parse_frame
  parse_frame-truncated f front back x h k e =
      Grows-eof f x back (read_frame max_alloc front) (read_frame max_alloc (front ++ (x ∷ back)))
        (read_frame-IsLocal front (x ∷ back))
        (rw (append-nil, e) at (read_frame-serialize max_alloc f [] h k))
