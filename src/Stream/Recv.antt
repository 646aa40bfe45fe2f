-- ===== src/Stream/Recv.antt =====
-- stream.go: RecvStream. The mutex makes each operation one step; a blocked Read is a step that has
-- no result yet.
pub mod Reorder
pub mod History
pub mod Faithful
pub mod Run
use kwik.Prelude.{
  ℕ, zero, suc, ◌+◌, ◌-◌, ◌%◌, ◌^◌, List, [], ◌∷◌, ◌++◌, Bool, true, false, Option, none, some, ltb,
  ◌==◌, if◌then◌else◌, length, take, drop, add64,
}
use kwik.Prelude.Map.{Map, lookup, insert, delete}
use kwik.Protocol.Frame.{StreamFrame}

pub record RecvStream : Type 0 where
  pub stream_id : ℕ
  pub expected_offset : ℕ
  pub buffered : Map (List ℕ)
  pub read_buf : List ℕ
  pub fin_received : Bool
  -- whether the channel notifyCh, of capacity 1, holds a token
  pub notified : Bool
  pub read_active : Bool

unfoldable pub new_recv_stream : ℕ → RecvStream
new_recv_stream id = record {
  stream_id = id;
  expected_offset = 0;
  buffered = [];
  read_buf = [];
  fin_received = false;
  notified = false;
  read_active = false;
}

-- The body of the loop over the buffered chunks: the key that it deletes is the advanced offset.
unfoldable pub take_chunk : RecvStream → List ℕ → RecvStream
take_chunk s buf =
    let next = add64 s.expected_offset (length buf) in
    record s {
      read_buf = s.read_buf ++ buf;
      expected_offset = next;
      buffered = delete next s.buffered;
    }

-- The loop, on fuel; `none` means that the fuel ran out.
unfoldable pub drain : ℕ → RecvStream → Option RecvStream
drain zero s = none
drain (suc fuel) s = elim (lookup s.expected_offset s.buffered) [
  | none ↦ some s
  | some buf ↦ drain fuel (take_chunk s buf)
]

-- The frame's data is written behind what is there.
unfoldable pub append_data : RecvStream → List ℕ → RecvStream
append_data s bytes = record s {
  read_buf = s.read_buf ++ bytes;
  expected_offset = add64 s.expected_offset (length bytes);
}

unfoldable pub set_fin : Bool → RecvStream → RecvStream
set_fin fin s = if fin then record s { fin_received = true } else s

unfoldable pub notify : RecvStream → RecvStream
notify s = record s { notified = true }

unfoldable pub buffer_chunk : RecvStream → ℕ → List ℕ → RecvStream
buffer_chunk s offset bytes = record s { buffered = insert offset bytes s.buffered }

-- handleFrame, with the fuel of its loop.
unfoldable pub handle_frame : ℕ → RecvStream → StreamFrame → Option RecvStream
handle_frame fuel s f =
    if f.offset == s.expected_offset
    then elim (drain fuel (append_data s f.payload)) [
      | none ↦ none
      | some s' ↦ some (notify (set_fin f.fin s'))
    ]
    else if ltb s.expected_offset f.offset
    then some (notify (buffer_chunk s f.offset f.payload))
    else some (notify s)

-- The frames of a list, one after another.
unfoldable pub handle_all : ℕ → RecvStream → List StreamFrame → Option RecvStream
handle_all fuel s [] = some s
handle_all fuel s (f ∷ fs) = elim (handle_frame fuel s f) [
  | none ↦ none
  | some s' ↦ handle_all fuel s' fs
]

-- What one round of Read's loop finds.
pub data ReadOutcome : Type 0 where
  -- n bytes and no error
  got : List ℕ → ReadOutcome
  -- 0 and io.EOF
  end_of_stream : ReadOutcome
  -- the call waits for a token
  blocked : ReadOutcome

-- A call of Read is refused while another one is in progress.
unfoldable pub begin_read : RecvStream → Option RecvStream
begin_read s = if s.read_active then none else some (record s { read_active = true })

-- A round of Read's loop into a buffer of `n` bytes; a token that is there is used up.
unfoldable pub poll_read : ℕ → RecvStream → ReadOutcome × RecvStream
poll_read n s =
    if ltb 0 (length s.read_buf)
    then (got (take n s.read_buf), record s { read_buf = drop n s.read_buf; read_active = false })
    else if s.fin_received
    then (end_of_stream, record s { read_active = false })
    else (blocked, record s { notified = false })

-- expectedOffset - uint64(readBuf.Len()), in uint64
unfoldable pub get_read_offset : RecvStream → ℕ
get_read_offset s = (s.expected_offset + 2 ^ 64 - length s.read_buf % 2 ^ 64) % 2 ^ 64

unfoldable pub set_read_offset : ℕ → RecvStream → RecvStream
set_read_offset offset s = record s { read_buf = []; expected_offset = offset; buffered = [] }
