-- ===== src/Transport/Wire/Sent.antt =====
-- A reader recovers the buffers that the sender wrote.
use kwik.Prelude.{
  ℕ, suc, ◌+◌, ◌≤◌, ◌<◌, ◌≡◌, ◌≢◌, sym, ap, ◌∙◌, subst, List, [], ◌∷◌, ◌++◌, length, take, drop,
  concat, map, arith, length-append, take-length, drop-length, append_assoc, append-nil, All,
}
use mathlib.Core.Path.{ap₂}
use kwik.Protocol.Bytes.{be_value, be_bytes, length-be_bytes, be_value-be_bytes}
use kwik.Transport.Wire.{waits, prepend, extract, split_packets, read_chunks, max_packet_size, wire}
use kwik.Transport.Wire.Chunks.{
  extract_whole, extract-fuel, prepend-nil, prepend-prepend, read_chunks_independent,
}

-- Buffers that a reader accepts.
abbrev pub Fits : List ℕ → Type 0
Fits b = (0 < length b) × (length b ≤ max_packet_size)

head-be_bytes : (n : ℕ) (xs : List ℕ) → take 4 (be_bytes 4 n ++ xs) ≡ be_bytes 4 n
head-be_bytes n xs =
    subst (λ k. take k (be_bytes 4 n ++ xs) ≡ be_bytes 4 n) (length-be_bytes 4 n)
      (take-length (be_bytes 4 n) xs)

rest-be_bytes : (n : ℕ) (xs : List ℕ) → drop 4 (be_bytes 4 n ++ xs) ≡ xs
rest-be_bytes n xs =
    subst (λ k. drop k (be_bytes 4 n ++ xs) ≡ xs) (length-be_bytes 4 n)
      (drop-length (be_bytes 4 n) xs)

-- The first buffer of the input is taken whole.
split_packets-wire :
    (b rest : List ℕ)
    → Fits b
    → split_packets (wire b ++ rest) ≡ prepend (b ∷ []) (split_packets rest)
unfolding split_packets wire
split_packets-wire b rest fits =
    ap (λ xs. extract (suc (length xs)) xs) regroup
    ∙ extract_whole (length src) src nonzero small present
    ∙ ap₂ (λ p o. prepend (p ∷ []) o) taken
        (ap (extract (length src)) left
          ∙ extract-fuel (length src) (suc (length rest)) rest (omega (arith, total)) (omega arith))
  where
    src : List ℕ
    src = be_bytes 4 (length b) ++ (b ++ rest)

    regroup : (be_bytes 4 (length b) ++ b) ++ rest ≡ src
    regroup = append_assoc (be_bytes 4 (length b)) b rest

    total : length src ≡ 4 + length b + length rest
    total = omega (
      arith,
      length-append (be_bytes 4 (length b)) (b ++ rest),
      length-be_bytes 4 (length b),
      length-append b rest,
    )

    len : be_value (take 4 src) ≡ length b
    len =
        ap be_value (head-be_bytes (length b) (b ++ rest))
        ∙ be_value-be_bytes 4 (length b) (omega arith)

    nonzero : be_value (take 4 src) ≢ 0
    nonzero = omega (arith, len)

    small : be_value (take 4 src) ≤ max_packet_size
    small = omega (arith, len)

    present : 4 + be_value (take 4 src) ≤ length src
    present = omega (arith, len, total)

    taken : take (be_value (take 4 src)) (drop 4 src) ≡ b
    taken = ap₂ take len (rest-be_bytes (length b) (b ++ rest)) ∙ take-length b rest

    left : drop (be_value (take 4 src)) (drop 4 src) ≡ rest
    left = ap₂ drop len (rest-be_bytes (length b) (b ++ rest)) ∙ drop-length b rest

split_packets-sent :
    (bs : List (List ℕ)) (rest : List ℕ)
    → All Fits bs
    → split_packets (concat (map wire bs) ++ rest) ≡ prepend bs (split_packets rest)
split_packets-sent [] rest h = sym (prepend-nil (split_packets rest))
split_packets-sent (b ∷ bs) rest h =
    ap split_packets (append_assoc (wire b) (concat (map wire bs)) rest)
    ∙ split_packets-wire b (concat (map wire bs) ++ rest) h.0
    ∙ ap (prepend (b ∷ [])) (split_packets-sent bs rest h.1)
    ∙ sym (prepend-prepend (b ∷ []) bs (split_packets rest))

-- However the reads cut what a path wrote for some nonempty buffers of at most 1 MiB, the reader
-- pushes exactly these buffers, in order, and keeps nothing back.
pub read_chunks-wire :
    (bs cs : List (List ℕ))
    → All Fits bs
    → concat cs ≡ concat (map wire bs)
    → read_chunks (waits [] []) cs ≡ waits bs []
read_chunks-wire bs cs h e =
    read_chunks_independent cs
    ∙ ap split_packets (e ∙ sym (append-nil (concat (map wire bs))))
    ∙ split_packets-sent bs [] h
    ∙ unfold split_packets extract in ap (λ xs. waits xs []) (append-nil bs)
