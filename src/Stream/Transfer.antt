-- ===== src/Stream/Transfer.antt =====
-- stream.go, from SendStream to RecvStream: frames that arrive in the order in which they were popped.
use kwik.Prelude.{
  ℕ, suc, ◌≡◌, refl, sym, ap, ◌∙◌, subst, List, [], ◌∷◌, ◌++◌, false, length, add64, arith, concat,
  append_assoc, append-nil, All, ◌||◌, some,
}
use kwik.Prelude.Map.{lookup}
use kwik.Protocol.Frame.{StreamFrame}
use kwik.Stream.Recv.{RecvStream, new_recv_stream, append_data, set_fin, notify, handle_all}
use kwik.Stream.Recv.Reorder.{deliver, deliver_all, drain_once, handle_all-deliver_all}
use kwik.Stream.Send.Pop.{payloads, AreConsecutive}
use kwik.Stream.Send.Account.{Op, run, fresh, HasNoFin, run-fresh-IsAccounted}

-- A stream with no chunk waiting behind a gap.
abbrev HasNoGap : RecvStream → Type 0
HasNoGap s = s.buffered ≡ []

-- What a frame at the expected offset does to such a stream.
record Appends (s : RecvStream) (f : StreamFrame) (s' : RecvStream) : Type 0 where
  bytes : s'.read_buf ≡ s.read_buf ++ f.payload
  offset : s'.expected_offset ≡ add64 s.expected_offset (length f.payload)
  no_gap : HasNoGap s'
  fin : s'.fin_received ≡ (f.fin || s.fin_received)

deliver-Appends :
    (s : RecvStream) (f : StreamFrame)
    → HasNoGap s
    → f.offset ≡ s.expected_offset
    → Appends s f (deliver s f)
unfolding deliver drain_once append_data set_fin notify lookup
deliver-Appends s f gap e = ground arith

deliver_all-AreConsecutive :
    (s : RecvStream) (fs : List StreamFrame)
    → HasNoGap s
    → AreConsecutive s.expected_offset fs
    → (deliver_all s fs).read_buf ≡ s.read_buf ++ payloads fs
unfolding deliver_all
deliver_all-AreConsecutive s [] gap h = sym (append-nil s.read_buf)
deliver_all-AreConsecutive s (f ∷ fs) gap h =
    let a : Appends s f (deliver s f) = deliver-Appends s f gap h.0 in
    deliver_all-AreConsecutive (deliver s f) fs a.no_gap
      (subst (λ (n : ℕ). AreConsecutive n fs) (sym a.offset) h.1)
    ∙ ap (λ xs. xs ++ payloads fs) a.bytes
    ∙ append_assoc s.read_buf f.payload (payloads fs)

deliver_all-HasNoFin :
    (s : RecvStream) (fs : List StreamFrame)
    → HasNoGap s
    → AreConsecutive s.expected_offset fs
    → All HasNoFin fs
    → s.fin_received ≡ false
    → (deliver_all s fs).fin_received ≡ false
unfolding deliver_all
deliver_all-HasNoFin s [] gap h no_fin e = e
deliver_all-HasNoFin s (f ∷ fs) gap h no_fin e =
    let a : Appends s f (deliver s f) = deliver-Appends s f gap h.0 in
    deliver_all-HasNoFin (deliver s f) fs a.no_gap
      (subst (λ (n : ℕ). AreConsecutive n fs) (sym a.offset) h.1) no_fin.1
      (ground (arith, a.fin, no_fin.0))

-- A new stream that is given frames which follow each other from its start handles all of them,
-- and has their payloads to read.
pub handle_all-AreConsecutive :
    (to n : ℕ) (fs : List StreamFrame)
    → AreConsecutive 0 fs
    → (s : RecvStream) × (handle_all (suc (suc n)) (new_recv_stream to) fs ≡ some s)
      × (s.read_buf ≡ payloads fs)
unfolding new_recv_stream
handle_all-AreConsecutive to n fs h =
    let start = new_recv_stream to in
    (
      deliver_all start fs,
      handle_all-deliver_all n start fs,
      deliver_all-AreConsecutive start fs refl h,
    )

-- A new RecvStream that is given, in order, the frames that a new SendStream gave over any
-- sequence of writes and pops handles all of them, and its read buffer then holds exactly the
-- written bytes but those that the sender still buffers, and it has not seen the end of the stream.
pub handle_all-run :
    (from to : ℕ) (ops : List Op) (n : ℕ)
    → let t = run (fresh from) ops in
      (s : RecvStream) × (handle_all (suc (suc n)) (new_recv_stream to) t.emitted ≡ some s)
      × (s.read_buf ++ concat t.state.send_buffer ≡ t.written)
      × (s.fin_received ≡ false)
unfolding new_recv_stream
handle_all-run from to ops n =
    let t = run (fresh from) ops in
    let v = run-fresh-IsAccounted from ops in
    let start = new_recv_stream to in
    (
      deliver_all start t.emitted,
      handle_all-deliver_all n start t.emitted,
      ap (λ xs. xs ++ concat t.state.send_buffer)
            (deliver_all-AreConsecutive start t.emitted refl v.consecutive)
          ∙ v.conserved,
      deliver_all-HasNoFin start t.emitted refl v.consecutive v.no_fin refl,
    )
