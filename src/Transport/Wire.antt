-- ===== src/Transport/Wire.antt =====
-- The packets of a path as a stream of bytes: the reader loop of internal/transport/reader.go, and
-- the length that WriteStream of internal/transport/path.go puts in front.
pub mod Chunks
pub mod Sent
use kwik.Prelude.{
  ℕ, zero, suc, ◌+◌, List, [], ◌∷◌, ◌++◌, ltb, ◌==◌, if◌then◌else◌, length, take, drop, concat, map,
}
use kwik.Protocol.Bytes.{be_bytes, be_value}

-- What WriteStream writes to the transport stream for the buffer `b`.
unfoldable pub wire : List ℕ → List ℕ
wire b = be_bytes 4 (length b) ++ b

abbrev pub max_packet_size : ℕ
max_packet_size = 1048576

-- What the reader has made of its input: the packets that it pushed to the multiplexer and the
-- bytes that it keeps, or the packets before one that is too large, at which it returns. `stuck`
-- is no outcome of the code: the fuel ran out.
pub data Outcome : Type 0 where
  waits : List (List ℕ) → List ℕ → Outcome
  too_large : List (List ℕ) → Outcome
  stuck : Outcome

abbrev pub prepend : List (List ℕ) → Outcome → Outcome
prepend ps (waits qs left) = waits (ps ++ qs) left
prepend ps (too_large qs) = too_large (ps ++ qs)
prepend ps stuck = stuck

-- The inner loop over the read buffer.
unfoldable pub extract : ℕ → List ℕ → Outcome
extract zero buf = stuck
extract (suc fuel) buf =
    let len = be_value (take 4 buf) in
    let skip = extract fuel (drop 4 buf) in
    let next = prepend (take len (drop 4 buf) ∷ []) (extract fuel (drop len (drop 4 buf))) in
    if ltb (length buf) 4
    then waits [] buf
    else if len == 0
    then skip
    else if ltb max_packet_size len
    then too_large []
    else if ltb (length buf) (4 + len)
    then waits [] buf
    else next

-- Each round takes four bytes at least.
unfoldable pub split_packets : List ℕ → Outcome
unfolding extract
split_packets buf = extract (suc (length buf)) buf

-- The inner loop again, once `bytes` more have been read.
abbrev pub go_on : Outcome → List ℕ → Outcome
go_on (waits ps left) bytes = prepend ps (split_packets (left ++ bytes))
go_on (too_large ps) bytes = too_large ps
go_on stuck bytes = stuck

-- The outer loop over the chunks that the reads return.
unfoldable pub read_chunks : Outcome → List (List ℕ) → Outcome
read_chunks o [] = o
read_chunks o (c ∷ cs) = read_chunks (go_on o c) cs
