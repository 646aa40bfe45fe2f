-- ===== src/Stream/Send/Account.antt =====
-- SendStream over any sequence of writes and pops.
use kwik.Prelude.{
  ℕ, ◌+◌, ◌-◌, ◌%◌, ◌^◌, ◌≡◌, refl, sym, ap, ◌∙◌, inl, inr, List, [], ◌∷◌, ◌++◌, Bool, true, false,
  leb, if◌then◌else◌, length, add64, ◌||◌, not, arith, concat, concat-append, Bool-cases,
  append_assoc, length-append, IsU64, append-nil, All, All-append, subst,
}
use kwik.Protocol.Frame.{StreamFrame}
use kwik.Stream.Send.{
  SendStream, Popped, new_send_stream, write, is_empty, pop_loop, finish_pop, pop_frames,
  has_buffered, should_flush, buffered_bytes, large_write_threshold, flush_threshold_bytes,
  flush_threshold_frames,
}
use kwik.Stream.Send.Pop.{payloads, AreConsecutive, Cuts, pop_loop-Cuts}

pub payloads-append : (xs ys : List StreamFrame) → payloads (xs ++ ys) ≡ payloads xs ++ payloads ys
payloads-append [] ys = refl
payloads-append (f ∷ xs) ys = rw (payloads-append xs ys, append_assoc)

add64_assoc : (a b c : ℕ) → add64 (add64 a b) c ≡ add64 a (b + c)
add64_assoc a b c = omega arith

AreConsecutive-append :
    (offset : ℕ) (xs ys : List StreamFrame)
    → IsU64 offset
    → AreConsecutive offset xs
    → AreConsecutive (add64 offset (length (payloads xs))) ys
    → AreConsecutive offset (xs ++ ys)
AreConsecutive-append offset [] ys u h k =
    let e : add64 offset 0 ≡ offset = omega arith in subst (λ (n : ℕ). AreConsecutive n ys) e k
AreConsecutive-append offset (f ∷ xs) ys u h k =
    let e : add64 offset (length (f.payload ++ payloads xs))
        ≡ add64 (add64 offset (length f.payload)) (length (payloads xs)) =
      omega (arith, length-append f.payload (payloads xs)) in
    (
      h.0,
      AreConsecutive-append (add64 offset (length f.payload)) xs ys (omega arith) h.1
          (subst (λ (n : ℕ). AreConsecutive n ys) e k),
    )

abbrev pub HasNoFin : StreamFrame → Type 0
HasNoFin f = f.fin ≡ false

pop_loop-HasNoFin :
    (s : SendStream) (chunks : List (List ℕ)) (offset max_bytes : ℕ)
    → s.fin_sent ≡ false
    → All HasNoFin (pop_loop s chunks offset max_bytes).frames
unfolding pop_loop
pop_loop-HasNoFin s [] offset max_bytes h = tt
pop_loop-HasNoFin s (chunk ∷ chunks) offset max_bytes h =
    ground
      (arith, pop_loop-HasNoFin s chunks (add64 offset (length chunk)) (max_bytes - length chunk) h)

-- What was written to a stream since it was made, the frames that it gave, and its state agree.
pub record IsAccounted (written : List ℕ) (emitted : List StreamFrame) (s : SendStream)
    : Type 0 where
  pub conserved : payloads emitted ++ concat s.send_buffer ≡ written
  pub consecutive : AreConsecutive 0 emitted
  pub base : s.base_offset ≡ length (payloads emitted) % 2 ^ 64
  pub end : s.write_offset ≡ length written % 2 ^ 64
  pub flush : s.needs_flush ≡ has_buffered s
  pub open_end : s.fin_sent ≡ false
  pub no_fin : All HasNoFin emitted

write-IsAccounted :
    (written p : List ℕ) (emitted : List StreamFrame) (s : SendStream)
    → IsAccounted written emitted s
    → IsAccounted (written ++ p) emitted (write p s).1
unfolding write has_buffered
write-IsAccounted written p emitted s v = record {
  conserved =
      rw (concat-append s.send_buffer (p ∷ []), append-nil)
        (sym (append_assoc (payloads emitted) (concat s.send_buffer) p)
          ∙ ap (λ xs. xs ++ p) v.conserved);
  consecutive = v.consecutive;
  base = v.base;
  end = omega (arith, v.end, length-append written p);
  flush = sym (not_empty s.send_buffer);
  open_end = v.open_end;
  no_fin = v.no_fin;
}
  where
    not_empty : (chunks : List (List ℕ)) → not (is_empty (chunks ++ (p ∷ []))) ≡ true
    not_empty [] = refl
    not_empty (x ∷ xs) = refl

finish_pop-IsAccounted :
    (written : List ℕ) (max_bytes : ℕ) (emitted : List StreamFrame) (s : SendStream) (r : Popped)
    → is_empty s.send_buffer ≡ false
    → Cuts s.send_buffer s.base_offset max_bytes r
    → All HasNoFin r.frames
    → IsAccounted written emitted s
    → IsAccounted written (emitted ++ r.frames) (finish_pop s r)
unfolding finish_pop has_buffered
finish_pop-IsAccounted written max_bytes emitted s r full c no_fin v = record {
  conserved = rw (payloads-append emitted r.frames, append_assoc, c.conserved) v.conserved;
  consecutive =
      let e : s.base_offset ≡ add64 0 (length (payloads emitted)) = omega (arith, v.base) in
      AreConsecutive-append 0 emitted r.frames (omega arith) v.consecutive
        (subst (λ (n : ℕ). AreConsecutive n r.frames) e c.consecutive);
  base =
      rw (payloads-append emitted r.frames)
        (omega (arith, v.base, c.counted, length-append (payloads emitted) (payloads r.frames)));
  end = v.end;
  flush = ground (arith, v.flush);
  open_end = v.open_end;
  no_fin = All-append HasNoFin emitted r.frames v.no_fin no_fin;
}

pop_frames-IsAccounted :
    (written : List ℕ) (max_bytes : ℕ) (emitted : List StreamFrame) (s : SendStream)
    → IsAccounted written emitted s
    → IsAccounted written (emitted ++ (pop_frames max_bytes s).0) (pop_frames max_bytes s).1
unfolding pop_frames
pop_frames-IsAccounted written max_bytes emitted s v = elim (Bool-cases (is_empty s.send_buffer)) [
  | inl empty ↦ rw (empty, append-nil) v
  | inr full ↦ rw full (
      finish_pop-IsAccounted written max_bytes emitted s _ full
        (pop_loop-Cuts s s.send_buffer s.base_offset max_bytes)
        (pop_loop-HasNoFin s s.send_buffer s.base_offset max_bytes v.open_end) v)
]

-- What a stream is asked to do.
pub data Op : Type 0 where
  writes : List ℕ → Op
  pops : ℕ → Op

-- The state of a stream with all that was written to it and all frames that it gave.
pub record Trace : Type 0 where
  pub written : List ℕ
  pub emitted : List StreamFrame
  pub state : SendStream

unfoldable pub step : Trace → Op → Trace
step t (writes p) = record t { written = t.written ++ p; state = (write p t.state).1 }
step t (pops max_bytes) =
    let (frames, s) = pop_frames max_bytes t.state in
    record t { emitted = t.emitted ++ frames; state = s }

unfoldable pub run : Trace → List Op → Trace
run t [] = t
run t (op ∷ ops) = run (step t op) ops

unfoldable pub fresh : ℕ → Trace
fresh id = record { written = []; emitted = []; state = new_send_stream id }

abbrev pub AccountedTrace : Trace → Type 0
AccountedTrace t = IsAccounted t.written t.emitted t.state

run-IsAccounted : (t : Trace) (ops : List Op) → AccountedTrace t → AccountedTrace (run t ops)
unfolding run step
run-IsAccounted t [] v = v
run-IsAccounted t (writes p ∷ ops) v =
    run-IsAccounted (step t (writes p)) ops (write-IsAccounted t.written p t.emitted t.state v)
run-IsAccounted t (pops n ∷ ops) v =
    run-IsAccounted (step t (pops n)) ops (pop_frames-IsAccounted t.written n t.emitted t.state v)

-- After any sequence of writes and pops of a new SendStream, the frames that it gave, followed by
-- its buffer, hold the written bytes in order; the frames follow one another from offset 0 and
-- none of them carries Fin; the two offsets count the bytes given and written, modulo 2 ^ 64; and
-- the stream asks to be flushed exactly while its buffer is not empty.
pub run-fresh-IsAccounted : (id : ℕ) (ops : List Op) → AccountedTrace (run (fresh id) ops)
unfolding fresh new_send_stream has_buffered
run-fresh-IsAccounted id ops = run-IsAccounted _ ops (record {
  conserved = refl;
  consecutive = tt;
  base = omega arith;
  end = omega arith;
  flush = refl;
  open_end = refl;
  no_fin = tt;
})

-- The decision to flush where the flag follows the buffer.
flush_decision :
    (write_size : ℕ) (chunks : List (List ℕ)) (flag : Bool)
    → flag ≡ not (is_empty chunks)
    → (if leb large_write_threshold write_size
        then true
        else if leb flush_threshold_bytes (buffered_bytes chunks)
        then true
        else if leb flush_threshold_frames (length chunks)
        then true
        else flag)
      ≡ (leb large_write_threshold write_size || not (is_empty chunks))
unfolding buffered_bytes
flush_decision write_size [] flag e = ground arith
flush_decision write_size (chunk ∷ chunks) flag e = ground arith

-- After any sequence of writes and pops of a new SendStream the thresholds on buffered bytes and
-- frames do not matter: a Write flushes exactly if it is large or something is buffered.
pub should_flush-run :
    (id write_size : ℕ) (ops : List Op)
    → let s = (run (fresh id) ops).state in
      should_flush write_size s ≡ (leb large_write_threshold write_size || has_buffered s)
unfolding should_flush has_buffered
should_flush-run id write_size ops =
    flush_decision write_size (run (fresh id) ops).state.send_buffer _
      (run-fresh-IsAccounted id ops).flush
