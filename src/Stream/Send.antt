-- ===== src/Stream/Send.antt =====
-- stream.go: SendStream, and the flush decision of StreamImpl.
pub mod Pop
pub mod Account
use kwik.Prelude.{
  ℕ, zero, suc, ◌+◌, ◌-◌, ◌*◌, ◌%◌, ◌^◌, List, [], ◌∷◌, ◌++◌, Bool, true, false, ltb, leb,
  if◌then◌else◌, length, take, drop, add64, ◌&&◌, ◌||◌, not,
}
use kwik.Protocol.Frame.{StreamFrame}

pub record SendStream : Type 0 where
  pub stream_id : ℕ
  pub write_offset : ℕ
  pub send_buffer : List (List ℕ)
  pub fin_sent : Bool
  pub base_offset : ℕ
  pub needs_flush : Bool

unfoldable pub new_send_stream : ℕ → SendStream
new_send_stream id = record {
  stream_id = id;
  write_offset = 0;
  send_buffer = [];
  fin_sent = false;
  base_offset = 0;
  needs_flush = false;
}

-- SendStream.Write; it returns the length of what it was given, and no error.
unfoldable pub write : List ℕ → SendStream → ℕ × SendStream
write p s = (
  length p,
  record s {
    send_buffer = s.send_buffer ++ (p ∷ []);
    write_offset = add64 s.write_offset (length p);
    needs_flush = true;
  },
)

abbrev pub is_empty : List (List ℕ) → Bool
is_empty [] = true
is_empty (_ ∷ _) = false

-- What the loop of PopFrames has at its end: the frames, what is left, and the bytes taken.
pub record Popped : Type 0 where
  pub frames : List StreamFrame
  pub left : List (List ℕ)
  pub consumed : ℕ

abbrev pub add_frame : StreamFrame → ℕ → Popped → Popped
add_frame f n r = record r { frames = f ∷ r.frames; consumed = n + r.consumed }

-- One frame of PopFrames, when `left` stays in the buffer.
abbrev pub make_frame : SendStream → ℕ → List ℕ → List (List ℕ) → StreamFrame
make_frame s offset bytes left = record {
  stream_id = s.stream_id;
  offset = offset;
  fin = s.fin_sent && is_empty left;
  payload = bytes;
}

-- The loop of PopFrames over the buffered writes. After a split `max_bytes` is 0, and it ends.
unfoldable pub pop_loop : SendStream → List (List ℕ) → ℕ → ℕ → Popped
pop_loop s [] offset max_bytes = record { frames = []; left = []; consumed = 0 }
pop_loop s (chunk ∷ chunks) offset max_bytes =
    let size = length chunk in
    let rest = pop_loop s chunks (add64 offset size) (max_bytes - size) in
    let split = drop max_bytes chunk ∷ chunks in
    if ltb 0 max_bytes
    then (if ltb max_bytes size
        then record {
          frames = make_frame s offset (take max_bytes chunk) split ∷ [];
          left = split;
          consumed = max_bytes;
        }
        else add_frame (make_frame s offset chunk chunks) size rest)
    else record { frames = []; left = chunk ∷ chunks; consumed = 0 }

-- What PopFrames does to the state behind its loop.
unfoldable pub finish_pop : SendStream → Popped → SendStream
finish_pop s r = record s {
  send_buffer = r.left;
  base_offset = add64 s.base_offset r.consumed;
  needs_flush = if is_empty r.left then false else s.needs_flush;
}

-- PopFrames; the early return on an empty buffer leaves needsFlush alone.
unfoldable pub pop_frames : ℕ → SendStream → List StreamFrame × SendStream
unfolding finish_pop
pop_frames max_bytes s =
    if is_empty s.send_buffer
    then ([], s)
    else let r = pop_loop s s.send_buffer s.base_offset max_bytes in (r.frames, finish_pop s r)

unfoldable pub has_buffered : SendStream → Bool
has_buffered s = not (is_empty s.send_buffer)

-- getBufferedBytes
unfoldable pub buffered_bytes : List (List ℕ) → ℕ
buffered_bytes [] = 0
buffered_bytes (chunk ∷ chunks) = length chunk + buffered_bytes chunks

abbrev pub flush_threshold_bytes : ℕ
flush_threshold_bytes = 64 * 1024

abbrev pub flush_threshold_frames : ℕ
flush_threshold_frames = 10

abbrev pub large_write_threshold : ℕ
large_write_threshold = 32 * 1024

-- shouldFlushSendStream
unfoldable pub should_flush : ℕ → SendStream → Bool
should_flush write_size s =
    if leb large_write_threshold write_size
    then true
    else if leb flush_threshold_bytes (buffered_bytes s.send_buffer)
    then true
    else if leb flush_threshold_frames (length s.send_buffer)
    then true
    else s.needs_flush

-- The part of StreamImpl.SetWriteOffset that concerns the SendStream.
unfoldable pub set_write_offset : ℕ → SendStream → SendStream
set_write_offset offset s = record s { base_offset = offset; write_offset = offset }
