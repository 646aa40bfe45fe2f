-- ===== src/Transport/Reception/Ordered.antt =====
-- internal/transport/multiplexer.go and stream_buffer.go: what PopAllFrames gives is the stream.
use kwik.Prelude.{
  ℕ, zero, suc, ◌+◌, ◌-◌, ◌%◌, ◌^◌, ◌≤◌, ◌<◌, ◌≡◌, refl, ◌∙◌, subst, List, [], ◌∷◌, ◌++◌, Option,
  none, some, ◌==◌, length, take, add64, arith, Bool-cases, Option-cases, inl, inr, IsU64, All,
  append-nil, append_assoc,
}
use kwik.Prelude.Map.{Map, lookup, delete, Every, Every-insert, Every-delete, Every-lookup}
use kwik.Protocol.Frame.{StreamFrame}
use kwik.Stream.Send.Pop.{payloads}
use kwik.Stream.Recv.Faithful.{IsSlice, extend_prefix}
use kwik.Transport.Acks.{contains}
use kwik.Transport.Reception.{
  StreamBuffer, insert_chunk, consume, read_loop, ReceptionBuffer, new_reception_buffer,
  push_stream_frame, popped_frames, pop_all_frames,
}

length-delete : (k : ℕ) (m : Map (List ℕ)) → length (delete k m) ≤ length m
unfolding delete
length-delete k [] = omega arith
length-delete k (entry ∷ m) = ground (arith, length-delete k m)

-- Deleting a key that is there makes a map shorter.
delete_shortens :
    (k : ℕ) (v : List ℕ) (m : Map (List ℕ)) → lookup k m ≡ some v → length (delete k m) < length m
unfolding delete lookup
delete_shortens k v [] h = cc
delete_shortens k v (entry ∷ m) h = elim (Bool-cases (entry.0 == k)) [
  | inl e ↦ rw e (omega (arith, length-delete k m))
  | inr e ↦ rw e (omega (arith, delete_shortens k v m (rw e at h)))
]

-- What can happen to a ReceptionBuffer: a frame is pushed, or PopAllFrames is called.
pub data Event : Type 0 where
  pushes : StreamFrame → Event
  pops : Event

-- Everything popped so far, and the buffer.
abbrev pub Watched : Type 0
Watched = List ℕ × ReceptionBuffer

abbrev pub watch : List ℕ → Option (List StreamFrame × ReceptionBuffer) → Option Watched
watch popped none = none
watch popped (some (frames, rb)) = some (popped ++ payloads frames, rb)

unfoldable pub step : Watched → Event → Option Watched
step (popped, rb) (pushes sf) = some (popped, push_stream_frame sf rb)
step (popped, rb) pops = watch popped (pop_all_frames rb)

unfoldable pub run : Watched → List Event → Option Watched
run t [] = some t
run t (e ∷ es) = elim (step t e) [ none ↦ none | some t' ↦ run t' es ]

module _ (sent : List ℕ) (short : IsU64 (length sent)) where
  -- What was popped is the part of what was sent that ends at the read offset, and the chunks are
  -- slices of what was sent.
  pub record IsOrdered (popped : List ℕ) (sb : StreamBuffer) : Type 0 where
    pub within : sb.read_offset ≤ length sent
    pub prefix : popped ≡ take sb.read_offset sent
    pub slices : Every (IsSlice sent) sb.chunks

  consume-IsOrdered :
      (popped chunk : List ℕ) (sb : StreamBuffer)
      → IsOrdered popped sb
      → IsSlice sent sb.read_offset chunk
      → IsOrdered (popped ++ chunk) (consume sb chunk)
  unfolding consume
  consume-IsOrdered popped chunk sb v slice = record {
    within = omega (arith, slice.0);
    prefix =
        extend_prefix sent short popped [] chunk sb.read_offset (append-nil popped ∙ v.prefix)
          slice;
    slices = Every-delete (IsSlice sent) _ sb.chunks v.slices;
  }

  consume_shortens :
      (chunk : List ℕ) (sb : StreamBuffer)
      → lookup sb.read_offset sb.chunks ≡ some chunk
      → IsSlice sent sb.read_offset chunk
      → length (consume sb chunk).chunks < length sb.chunks
  unfolding consume
  consume_shortens chunk sb e slice =
      let used : (add64 sb.read_offset (length chunk) + 2 ^ 64 - length chunk % 2 ^ 64) % 2 ^ 64
          ≡ sb.read_offset =
        omega (arith, slice.0) in
      rw used (delete_shortens sb.read_offset chunk sb.chunks e)

  -- The loop ends, and there is no chunk where it ends.
  pub record ReadsAll (popped : List ℕ) (r : Option (List ℕ × StreamBuffer)) : Type 0 where
    pub bytes : List ℕ
    pub left : StreamBuffer
    pub returned : r ≡ some (bytes, left)
    pub ordered : IsOrdered (popped ++ bytes) left
    pub maximal : lookup left.read_offset left.chunks ≡ none

  read_loop-ReadsAll :
      (fuel : ℕ) (popped : List ℕ) (sb : StreamBuffer)
      → length sb.chunks < fuel
      → IsOrdered popped sb
      → ReadsAll popped (read_loop fuel sb)
  unfolding read_loop
  read_loop-ReadsAll zero popped sb enough v = absurd (omega arith)
  read_loop-ReadsAll (suc fuel) popped sb enough v =
      elim (Option-cases (lookup sb.read_offset sb.chunks)) [
        | inl e ↦
            rw (e, read_loop)
              (record {
                bytes = [];
                left = sb;
                returned = refl;
                ordered = rw (append-nil popped) v;
                maximal = e;
              })
        | inr (chunk, e) ↦
            let slice = Every-lookup (IsSlice sent) sb.read_offset chunk sb.chunks v.slices e in
            let rest =
              read_loop-ReadsAll fuel (popped ++ chunk) (consume sb chunk)
                (omega (arith, consume_shortens chunk sb e slice))
                (consume-IsOrdered popped chunk sb v slice) in
            rw (e, read_loop, rest.returned)
              (record {
                bytes = chunk ++ rest.bytes;
                left = rest.left;
                returned = refl;
                ordered =
                    subst (λ xs. IsOrdered xs rest.left) (append_assoc popped chunk rest.bytes)
                      rest.ordered;
                maximal = rest.maximal;
              })
      ]

  abbrev pub IsGenuine : Event → Type 0
  IsGenuine (pushes sf) = IsSlice sent sf.offset sf.payload
  IsGenuine pops = Unit

  pub record OrderedResult (result : Option Watched) : Type 0 where
    pub after : Watched
    pub returned : result ≡ some after
    pub ordered : IsOrdered after.0 after.1.stream_buffer

  push_stream_frame-IsOrdered :
      (popped : List ℕ) (sf : StreamFrame) (rb : ReceptionBuffer)
      → IsSlice sent sf.offset sf.payload
      → IsOrdered popped rb.stream_buffer
      → IsOrdered popped (push_stream_frame sf rb).stream_buffer
  unfolding push_stream_frame insert_chunk
  push_stream_frame-IsOrdered popped sf rb g v =
      elim (Bool-cases (contains sf.offset rb.seen_offsets)) [
        | inl e ↦ rw e v
        | inr e ↦ rw e (record {
          within = v.within;
          prefix = v.prefix;
          slices =
              Every-insert (IsSlice sent) sf.offset sf.payload rb.stream_buffer.chunks g v.slices;
        })
      ]

  payloads-popped_frames :
      (rb : ReceptionBuffer) (bytes : List ℕ) (sb : StreamBuffer)
      → payloads (popped_frames rb bytes sb) ≡ bytes
  unfolding popped_frames
  payloads-popped_frames rb [] sb = refl
  payloads-popped_frames rb (b ∷ bytes) sb = append-nil (b ∷ bytes)

  step-OrderedResult :
      (t : Watched) (e : Event)
      → IsGenuine e
      → IsOrdered t.0 t.1.stream_buffer
      → OrderedResult (step t e)
  unfolding step pop_all_frames
  step-OrderedResult (popped, rb) (pushes sf) g v = record {
    after = (popped, push_stream_frame sf rb);
    returned = refl;
    ordered = push_stream_frame-IsOrdered popped sf rb g v;
  }
  step-OrderedResult (popped, rb) pops g v =
      let sb = rb.stream_buffer in
      let r = read_loop-ReadsAll (suc (length sb.chunks)) popped sb (omega arith) v in
      rw (r.returned, pop_all_frames)
        (record {
          after = (
            popped ++ payloads (popped_frames rb r.bytes r.left),
            record rb { stream_buffer = r.left },
          );
          returned = refl;
          ordered = rw (payloads-popped_frames rb r.bytes r.left) r.ordered;
        })

  run-OrderedResult :
      (t : Watched) (es : List Event)
      → All IsGenuine es
      → IsOrdered t.0 t.1.stream_buffer
      → OrderedResult (run t es)
  unfolding run
  run-OrderedResult t [] g v = record { after = t; returned = refl; ordered = v }
  run-OrderedResult t (e ∷ es) g v =
      let one = step-OrderedResult t e g.0 v in
      rw (one.returned, run) (run-OrderedResult one.after es g.1 one.ordered)

  -- Let the frames that are pushed into a new ReceptionBuffer be slices of what was sent, in any
  -- order and again and again, and let PopAllFrames be called between them. Then every call ends,
  -- all that was popped is the first part of what was sent, up to the read offset, and the chunks
  -- that are kept are slices of it.
  pub run-new_reception_buffer-IsOrdered :
      (id : ℕ) (es : List Event)
      → All IsGenuine es
      → OrderedResult (run ([], new_reception_buffer id) es)
  unfolding new_reception_buffer
  run-new_reception_buffer-IsOrdered id es g =
      run-OrderedResult ([], new_reception_buffer id) es g
        (record { within = omega arith; prefix = refl; slices = tt })
