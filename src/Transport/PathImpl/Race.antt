-- ===== src/Transport/PathImpl/Race.antt =====
-- Two goroutines of handleRelayDataFrame that relay data to one stream of one path.
use kwik.Prelude.{
  none, if_true, ◌==◌, ℕ, ◌+◌, ◌<◌, ◌^◌, ◌≡◌, refl, ap, ◌∙◌, List, [], ◌∷◌, ◌++◌, Bool, true, false,
  some, length, add64, arith, ==_self, append_assoc,
}
use kwik.Prelude.Map.{lookup, lookup-insert}
use kwik.Protocol.Frame.{StreamFrame, stream}
use kwik.Stream.Recv.{RecvStream, append_data, set_fin, notify}
use kwik.Stream.Recv.Reorder.{deliver, deliver_all, drain_once-none}
use kwik.Transport.PathImpl.{
  PathImpl, submits, increment_write_offset, write_offset_for_stream, get_write_offset,
}
use kwik.Transport.PathImpl.Relays.{relay_on-Relayed}
use kwik.Transport.PathImpl.Control.{relay_on, Stage, reads, advance, relay_frame, data_frame}

-- The goroutines for the data `a` and `b`, and the relay path.
pub record Two : Type 0 where
  pub first : Stage
  pub second : Stage
  pub path : PathImpl

abbrev pub both : PathImpl → Two
both p = record { first = reads; second = reads; path = p }

-- A step of the first goroutine or of the second.
abbrev pub go_first : ℕ → List ℕ → Two → Two
go_first sid a t =
    let (stage, p) = advance sid a t.first t.path in record t { first = stage; path = p }

abbrev pub go_second : ℕ → List ℕ → Two → Two
go_second sid b t =
    let (stage, p) = advance sid b t.second t.path in record t { second = stage; path = p }

-- A schedule names the goroutine that goes next: `true` is the first.
unfoldable pub run_two : ℕ → List ℕ → List ℕ → List Bool → Two → Two
run_two sid a b [] t = t
run_two sid a b (true ∷ turns) t = run_two sid a b turns (go_first sid a t)
run_two sid a b (false ∷ turns) t = run_two sid a b turns (go_second sid b t)

-- One behind the other, and in step.
abbrev pub in_turn : List Bool
in_turn = true ∷ true ∷ true ∷ false ∷ false ∷ false ∷ []

abbrev pub in_step : List Bool
in_step = true ∷ false ∷ true ∷ false ∷ true ∷ false ∷ []

-- What the two have sent through the path, and the offset that they leave.
pub record Sent (sid : ℕ) (f g : StreamFrame) (offset : ℕ) (p : PathImpl) (t : Two) : Type 0 where
  pub log : t.path.calls ≡ p.calls ++ (submits (stream f) ∷ submits (stream g) ∷ [])
  pub place : lookup sid t.path.streams ≡ some offset

in_turn-Sent :
    (sid offset : ℕ) (a b : List ℕ) (p : PathImpl)
    → lookup sid p.streams ≡ some offset
    → Sent sid
        (data_frame sid offset a)
        (data_frame sid (add64 offset (length a)) b)
        (add64 (add64 offset (length a)) (length b))
        p
        (run_two sid a b in_turn (both p))
unfolding run_two advance relay_on
in_turn-Sent sid offset a b p h =
    let one = relay_on-Relayed sid offset a p h in
    let two = relay_on-Relayed sid (add64 offset (length a)) b (relay_on sid a p) one.place in
    record {
      log =
          two.log
          ∙ ap (λ c. c ++ (submits (stream (data_frame sid (add64 offset (length a)) b)) ∷ []))
              one.log
          ∙ append_assoc p.calls _ _;
      place = two.place;
    }

frame_at :
    (sid offset : ℕ) (a : List ℕ) (p : PathImpl)
    → lookup sid p.streams ≡ some offset
    → relay_frame sid a p ≡ data_frame sid offset a
unfolding relay_frame write_offset_for_stream get_write_offset
frame_at sid offset a p h = rw (h, write_offset_for_stream, get_write_offset) refl

record Counted (sid offset : ℕ) (p q : PathImpl) : Type 0 where
  calls : q.calls ≡ p.calls
  place : lookup sid q.streams ≡ some offset

increment_write_offset-Counted :
    (sid offset n : ℕ) (p : PathImpl)
    → lookup sid p.streams ≡ some offset
    → Counted sid (add64 offset n) p (increment_write_offset sid n p)
unfolding increment_write_offset
increment_write_offset-Counted sid offset n p h =
    rw (h, increment_write_offset)
      (record {
        calls = refl;
        place = rw (lookup-insert sid sid (add64 offset n) p.streams, ==_self sid) refl;
      })

in_step-Sent :
    (sid offset : ℕ) (a b : List ℕ) (p : PathImpl)
    → lookup sid p.streams ≡ some offset
    → Sent sid
        (data_frame sid offset a)
        (data_frame sid offset b)
        (add64 (add64 offset (length a)) (length b))
        p
        (run_two sid a b in_step (both p))
unfolding run_two advance
in_step-Sent sid offset a b p h =
    let one = increment_write_offset-Counted sid offset (length a) p h in
    let q = increment_write_offset sid (length a) p in
    let two = increment_write_offset-Counted sid (add64 offset (length a)) (length b) q one.place in
    record {
      log =
          ap
            (λ c.
              (c ++ (submits (stream (relay_frame sid a p)) ∷ []))
              ++ (submits (stream (relay_frame sid b p)) ∷ []))
            (two.calls ∙ one.calls)
          ∙ append_assoc p.calls _ _
          ∙ ap (λ f. p.calls ++ (submits (stream f) ∷ submits (stream (relay_frame sid b p)) ∷ []))
              (frame_at sid offset a p h)
          ∙ ap
              (λ f.
                p.calls ++ (submits (stream (data_frame sid offset a)) ∷ submits (stream f) ∷ []))
              (frame_at sid offset b p h);
      place = two.place;
    }

-- A receiving stream that has all bytes in front of an offset, and nothing behind it.
pub record IsUpTo (offset : ℕ) (s : RecvStream) : Type 0 where
  pub here : s.expected_offset ≡ offset
  pub nothing : s.buffered ≡ []

-- The next frame in order.
deliver_next :
    (sid offset : ℕ) (a : List ℕ) (s : RecvStream)
    → IsUpTo offset s
    → deliver s (data_frame sid offset a) ≡ notify (append_data s a)
unfolding deliver append_data set_fin lookup
deliver_next sid offset a s u =
    let next : RecvStream = append_data s a in
    let here : (offset == s.expected_offset) ≡ true = rw (u.here) (==_self offset) in
    let none_there : lookup next.expected_offset next.buffered ≡ none = rw (u.nothing) refl in
    if_true (offset == s.expected_offset) _ _ here ∙ ap notify (drain_once-none next none_there)

-- A frame that starts behind the stream's end is passed over.
deliver_old :
    (sid offset : ℕ) (b : List ℕ) (s : RecvStream)
    → offset < s.expected_offset
    → deliver s (data_frame sid offset b) ≡ notify s
unfolding deliver
deliver_old sid offset b s old = ground (arith, old)

-- Two goroutines relay `a`, which is not empty, and `b` to a stream that the relay path has at some
-- offset, far from the largest uint64, and a receiver has all bytes in front of it. If one goroutine
-- follows the other, then `a` and `b` are sent behind each other, and the receiver that is given
-- their frames has both to read. If they go in step, so that each reads the offset before the other
-- increments it, then both frames are sent at the same offset: the receiver has `a` alone to read,
-- and waits for an offset that the relay path has passed by the length of `b`.
pub run_two_race :
    (sid offset : ℕ) (a b : List ℕ) (p : PathImpl) (s : RecvStream)
    → lookup sid p.streams ≡ some offset
    → IsUpTo offset s
    → 0 < length a
    → offset + length a + length b < 2 ^ 64
    → let f = data_frame sid offset a in
      let g = data_frame sid (offset + length a) b in
      let clash = data_frame sid offset b in
      let end = offset + length a + length b in
      Sent sid f g end p (run_two sid a b in_turn (both p))
      × ((deliver_all s (f ∷ g ∷ [])).read_buf ≡ s.read_buf ++ (a ++ b))
      × Sent sid f clash end p (run_two sid a b in_step (both p))
      × ((deliver_all s (f ∷ clash ∷ [])).read_buf ≡ s.read_buf ++ a)
      × ((deliver_all s (f ∷ clash ∷ [])).expected_offset + length b ≡ end)
unfolding deliver_all append_data notify
run_two_race sid offset a b p s h u some_byte short =
    let next : add64 offset (length a) ≡ offset + length a = omega (arith, short) in
    let last : add64 (offset + length a) (length b) ≡ offset + length a + length b =
      omega (arith, short) in
    let t : RecvStream = notify (append_data s a) in
    let one = deliver_next sid offset a s u in
    let end : t.expected_offset ≡ offset + length a = ap (λ n. add64 n (length a)) u.here ∙ next in
    let two =
      deliver_next sid (offset + length a) b t (record { here = end; nothing = u.nothing }) in
    let old = deliver_old sid offset b t (omega (arith, end, some_byte)) in
    let turn = in_turn-Sent sid offset a b p h in
    let step = in_step-Sent sid offset a b p h in
    (
      rw (next, last) at turn,
      ap (λ r. (deliver r (data_frame sid (offset + length a) b)).read_buf) one
          ∙ ap (λ r. r.read_buf) two
          ∙ append_assoc s.read_buf a b,
      rw (next, last) at step,
      ap (λ r. (deliver r (data_frame sid offset b)).read_buf) one ∙ ap (λ r. r.read_buf) old,
      ap (λ n. n + length b)
          (ap (λ r. (deliver r (data_frame sid offset b)).expected_offset) one
            ∙ ap (λ r. r.expected_offset) old
            ∙ end),
    )
