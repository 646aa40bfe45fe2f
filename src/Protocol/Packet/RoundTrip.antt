-- ===== src/Protocol/Packet/RoundTrip.antt =====
-- What DeserializePacket makes of the bytes that Packet.Serialize wrote.
use kwik.Prelude.{
  ℕ, zero, suc, ◌+◌, ◌-◌, ◌^◌, ◌≤◌, ◌<◌, ◌≡◌, ◌≢◌, refl, sym, ap, ◌∙◌, subst, List, [], ◌∷◌, ◌++◌,
  arith, length, drop, take, leb, le→leb, ltb, ◌==◌, length-append, drop-length, take-length,
  replicate, All, IsU64, append_assoc, true, false,
}
use mathlib.Core.List.{tail}
use kwik.Protocol.Errors.{Result, ok, err, panic, unreasonable_frame_count}
use kwik.Protocol.Bytes.{be_bytes, length-be_bytes, be_value-be_bytes}
use kwik.Protocol.Reader.{read_byte, write_var_int, read_var_int-write_var_int}
use kwik.Protocol.Frame.{Frame, serialize}
use kwik.Protocol.Parse.{parse_frame}
use kwik.Protocol.RoundTrip.{parse_frame-serialize}
use kwik.Protocol.Bounds.{IsParsed}
use kwik.Protocol.Packet.{
  Packet, serialize_header, serialize_frames, serialize_packet, deserialize_header, strip_length,
  deserialize_frames, deserialize_body, deserialize_packet,
}

-- A packet as the packer hands it to a path: its length in four bytes, and its body.
abbrev pub framed : List ℕ → List ℕ
framed body = be_bytes 4 (length body) ++ body

-- The length in front of a packet is taken off.
pub strip_length-framed : (body : List ℕ) → length body < 2 ^ 32 → strip_length (framed body) ≡ body
unfolding strip_length
strip_length-framed body h = rw (
  prefix_taken,
  be_value-be_bytes 4 (length body) h,
  le→leb 4 (length (framed body)) (omega (arith, total)),
  fits,
  body_left,
)
  where
    total : length (framed body) ≡ 4 + length body
    total =
        omega
          (arith, length-append (be_bytes 4 (length body)) body, length-be_bytes 4 (length body))

    fits : (length body == length (framed body) - 4) ≡ true
    fits = ground (arith, total)

    prefix_taken : take 4 (framed body) ≡ be_bytes 4 (length body)
    prefix_taken =
        subst (λ n. take n (framed body) ≡ be_bytes 4 (length body))
          (length-be_bytes 4 (length body)) (take-length (be_bytes 4 (length body)) body)

    body_left : drop 4 (framed body) ≡ body
    body_left =
        subst (λ n. drop n (framed body) ≡ body) (length-be_bytes 4 (length body))
          (drop-length (be_bytes 4 (length body)) body)

skip_front : (xs ys : List ℕ) → length xs ≡ length (xs ++ ys) - length ys
skip_front xs ys = omega (arith, length-append xs ys)

-- The payload that the receiver of `payload` sees.
abbrev pub repeated : List Frame → List Frame
repeated [] = []
repeated (f ∷ fs) = replicate (length {A = Frame} (f ∷ fs)) f

repeated-single : (fs : List Frame) → length fs ≤ 1 → repeated fs ≡ fs
repeated-single [] h = refl
repeated-single (f ∷ []) h = refl
repeated-single (f ∷ g ∷ fs) h = absurd (omega arith)

abbrev payload_of : Result Packet → List Frame
payload_of (ok p) = p.payload
payload_of (err e) = []
payload_of panic = []

-- All elements of a list that repeats `f` are `f`.
replicate-mem :
    (f g : Frame) (n : ℕ) (before after : List Frame)
    → replicate n f ≡ before ++ (g ∷ after)
    → f ≡ g
replicate-mem f g zero [] after e = cc
replicate-mem f g zero (x ∷ before) after e = cc
replicate-mem f g (suc n) [] after e = cc
replicate-mem f g (suc n) (x ∷ before) after e = replicate-mem f g n before after (cc)

module _ (max_alloc : ℕ) where
  -- The reader never moves on, so every round parses the bytes of the first frame.
  deserialize_frames-repeats :
      (n : ℕ) (front r : List ℕ) (b : ℕ) (f : Frame)
      → parse_frame max_alloc (b ∷ r) ≡ ok f
      → deserialize_frames max_alloc n (front ++ (b ∷ r)) (b ∷ r) ≡ ok (replicate n f)
  unfolding deserialize_frames read_byte
  deserialize_frames-repeats zero front r b f e = refl
  deserialize_frames-repeats (suc n) front r b f e =
      simp (dropped, e, stays, deserialize_frames-repeats n front r b f e)
    where
      dropped : drop (length (front ++ (b ∷ r)) - length {A = ℕ} (b ∷ r)) (front ++ (b ∷ r)) ≡ b ∷ r
      dropped =
          subst (λ n. drop n (front ++ (b ∷ r)) ≡ b ∷ r) (skip_front front (b ∷ r))
            (drop-length front (b ∷ r))

      stays : ltb 0 (length {A = ℕ} (b ∷ r) - length {A = ℕ} (b ∷ r)) ≡ false
      stays = ground arith

  deserialize_frames-serialize_frames :
      (front : List ℕ) (payload : List Frame)
      → All (IsParsed max_alloc) payload
      → deserialize_frames max_alloc
          (length payload)
          (front ++ serialize_frames payload)
          (serialize_frames payload)
        ≡ ok (repeated payload)
  unfolding serialize_frames
  deserialize_frames-serialize_frames front [] h = unfold deserialize_frames in refl
  deserialize_frames-serialize_frames front (f ∷ fs) h =
      unfold serialize in
      deserialize_frames-repeats (length {A = Frame} (f ∷ fs)) front _ _ f
        (parse_frame-serialize max_alloc f (serialize_frames fs) h.0.0 h.0.1)

  deserialize_body-serialize_packet :
      (p : Packet)
      → IsU64 p.header.packet_num
      → All (IsParsed max_alloc) p.payload
      → length p.payload ≤ 10000
      → deserialize_body max_alloc (serialize_packet p)
        ≡ ok (record p { payload = repeated p.payload })
  unfolding deserialize_body serialize_packet serialize_header deserialize_header read_byte
  deserialize_body-serialize_packet p hn hp hc =
      let count = length p.payload in
      let frames = serialize_frames p.payload in
      simp (
        read_var_int-write_var_int p.header.packet_num (write_var_int count ++ frames) hn,
        read_var_int-write_var_int count frames (omega arith),
        le→leb count 10000 hc,
        rw append_assoc at (
            deserialize_frames-serialize_frames
              (p.header.header_type ∷ (write_var_int p.header.packet_num ++ write_var_int count))
              p.payload hp),
      )

  -- The receiver of a well-formed packet gets its header and as many frames as it has, each of them
  -- a copy of its first frame, if there are at most 10000, if the slice of each frame can be made
  -- and if the body's length fits the four bytes in front of it.
  pub deserialize_packet-serialize_packet :
      (p : Packet)
      → IsU64 p.header.packet_num
      → All (IsParsed max_alloc) p.payload
      → length p.payload ≤ 10000
      → length (serialize_packet p) < 2 ^ 32
      → deserialize_packet max_alloc (framed (serialize_packet p))
        ≡ ok (record p { payload = repeated p.payload })
  unfolding deserialize_packet
  deserialize_packet-serialize_packet p hn hp hc hl =
      rw (strip_length-framed (serialize_packet p) hl)
        (deserialize_body-serialize_packet p hn hp hc)

  -- A well-formed packet of at most one frame arrives as it was sent, if the slice of its frame can
  -- be made and if the body's length fits the four bytes in front of it.
  pub deserialize_packet-single :
      (p : Packet)
      → IsU64 p.header.packet_num
      → All (IsParsed max_alloc) p.payload
      → length p.payload ≤ 1
      → length (serialize_packet p) < 2 ^ 32
      → deserialize_packet max_alloc (framed (serialize_packet p)) ≡ ok p
  deserialize_packet-single p hn hp hc hl =
      deserialize_packet-serialize_packet p hn hp (omega arith) hl
      ∙ ap (λ fs. ok (record p { payload = fs })) (repeated-single p.payload hc)

  -- A well-formed packet of at most 10000 frames with a frame that differs from its first one does
  -- not arrive as it was sent, if the slice of each frame can be made and if the body's length fits
  -- the four bytes in front of it.
  deserialize_packet-mixed :
      (p : Packet) (f g : Frame) (before after : List Frame)
      → p.payload ≡ f ∷ (before ++ (g ∷ after))
      → f ≢ g
      → IsU64 p.header.packet_num
      → All (IsParsed max_alloc) p.payload
      → length p.payload ≤ 10000
      → length (serialize_packet p) < 2 ^ 32
      → deserialize_packet max_alloc (framed (serialize_packet p)) ≢ ok p
  deserialize_packet-mixed p f g before after e ne hn hp hc hl arrived = ne (
      replicate-mem f g _ before after (
        ap tail (
          subst (λ fs. repeated fs ≡ fs) e
            (ap payload_of (sym (deserialize_packet-serialize_packet p hn hp hc hl) ∙ arrived)))))

  -- The receiver refuses what Packet.Serialize writes for a packet of more than 10000 frames, if
  -- its number and its frame count fit 64 bits and the body's length the four bytes in front of it.
  pub deserialize_packet-too_many :
      (p : Packet)
      → IsU64 p.header.packet_num
      → IsU64 (length p.payload)
      → 10000 < length p.payload
      → length (serialize_packet p) < 2 ^ 32
      → deserialize_packet max_alloc (framed (serialize_packet p))
        ≡ err (unreasonable_frame_count (length p.payload))
  unfolding deserialize_packet
  deserialize_packet-too_many p hn hu hc hl = rw (strip_length-framed (serialize_packet p) hl) (
      unfold deserialize_body serialize_packet serialize_header deserialize_header read_byte in
      simp (read_var_int-write_var_int, hn, hu, too_many))
    where
      too_many : leb (length p.payload) 10000 ≡ false
      too_many = ground arith
