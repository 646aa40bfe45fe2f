-- ===== src/Transport/Reception.antt =====
-- internal/transport/stream_buffer.go, and the ReceptionBuffer of internal/transport/multiplexer.go,
-- which keeps the frames of a stream that has no handler of its own.
pub mod Ordered
mod Tests
use kwik.Prelude.{
  ℕ, zero, suc, ◌+◌, ◌-◌, ◌/◌, ◌%◌, ◌^◌, List, [], ◌∷◌, ◌++◌, Bool, true, false, Option, none, some,
  ltb, leb, ◌==◌, if◌then◌else◌, length, take, add64, min, ◌||◌,
}
use kwik.Prelude.Map.{Map, lookup, insert, delete}
use kwik.Protocol.Frame.{StreamFrame}
use kwik.Transport.Acks.{contains}

pub record StreamBuffer : Type 0 where
  pub chunks : Map (List ℕ)
  pub read_offset : ℕ

-- Insert
unfoldable pub insert_chunk : ℕ → List ℕ → StreamBuffer → StreamBuffer
insert_chunk offset bytes sb = record sb { chunks = insert offset bytes sb.chunks }

-- The body of Read's loop: the offset advances, and the chunk at the offset less the chunk's length,
-- in uint64, is deleted.
unfoldable pub consume : StreamBuffer → List ℕ → StreamBuffer
consume sb chunk =
    let next = add64 sb.read_offset (length chunk) in
    let used = (next + 2 ^ 64 - length chunk % 2 ^ 64) % 2 ^ 64 in
    record { chunks = delete used sb.chunks; read_offset = next }

abbrev pub behind : List ℕ → Option (List ℕ × StreamBuffer) → Option (List ℕ × StreamBuffer)
behind chunk none = none
behind chunk (some (bytes, sb)) = some (chunk ++ bytes, sb)

-- Read, on fuel; `none` means that the fuel ran out.
unfoldable pub read_loop : ℕ → StreamBuffer → Option (List ℕ × StreamBuffer)
read_loop zero sb = none
read_loop (suc fuel) sb = elim (lookup sb.read_offset sb.chunks) [
  | none ↦ some ([], sb)
  | some chunk ↦ behind chunk (read_loop fuel (consume sb chunk))
]

pub record ReceptionBuffer : Type 0 where
  pub stream_id : ℕ
  pub stream_buffer : StreamBuffer
  pub seen_offsets : List ℕ

unfoldable pub new_reception_buffer : ℕ → ReceptionBuffer
new_reception_buffer id = record {
  stream_id = id;
  stream_buffer = record { chunks = []; read_offset = 0 };
  seen_offsets = [];
}

abbrev pub max_seen_cache_size : ℕ
max_seen_cache_size = 1000

-- sort.Slice by >
unfoldable pub insert_descending : ℕ → List ℕ → List ℕ
insert_descending n [] = n ∷ []
insert_descending n (x ∷ xs) = if leb x n then n ∷ x ∷ xs else x ∷ insert_descending n xs

unfoldable pub sort_descending : List ℕ → List ℕ
sort_descending [] = []
sort_descending (x ∷ xs) = insert_descending x (sort_descending xs)

-- cleanupSeenOffsets
unfoldable pub cleanup_seen_offsets : List ℕ → List ℕ
cleanup_seen_offsets seen =
    if leb (length seen) (max_seen_cache_size / 2)
    then seen
    else take (min (length seen / 2) (max_seen_cache_size / 2)) (sort_descending seen)

unfoldable pub push_stream_frame : StreamFrame → ReceptionBuffer → ReceptionBuffer
push_stream_frame sf rb =
    let seen = sf.offset ∷ rb.seen_offsets in
    if contains sf.offset rb.seen_offsets then rb else record rb {
      seen_offsets =
          if ltb max_seen_cache_size (length seen) then cleanup_seen_offsets seen else seen;
      stream_buffer = insert_chunk sf.offset sf.payload rb.stream_buffer;
    }

-- The frame that PopAllFrames makes of the bytes that Read has returned.
unfoldable pub popped_frames : ReceptionBuffer → List ℕ → StreamBuffer → List StreamFrame
popped_frames rb [] sb = []
popped_frames rb (b ∷ bytes) sb =
    record {
      stream_id = rb.stream_id;
      offset = (sb.read_offset + 2 ^ 64 - length (b ∷ bytes) % 2 ^ 64) % 2 ^ 64;
      fin = false;
      payload = b ∷ bytes;
    }
    ∷ []

-- PopAllFrames; each round of its loop deletes a chunk.
unfoldable pub pop_all_frames : ReceptionBuffer → Option (List StreamFrame × ReceptionBuffer)
pop_all_frames rb = elim (read_loop (suc (length rb.stream_buffer.chunks)) rb.stream_buffer) [
  | none ↦ none
  | some (bytes, sb) ↦ some (popped_frames rb bytes sb, record rb { stream_buffer = sb })
]
