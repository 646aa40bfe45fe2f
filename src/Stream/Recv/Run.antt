-- ===== src/Stream/Recv/Run.antt =====
-- RecvStream over any sequence of frames and reads.
use kwik.Prelude.{ℕ, suc, ◌≡◌, refl, List, [], ◌∷◌, Option, none, some, length, arith, IsU64, All}
use kwik.Prelude.Map.{lookup}
use kwik.Protocol.Frame.{StreamFrame}
use kwik.Stream.Recv.{RecvStream, new_recv_stream, handle_frame, poll_read}
use kwik.Stream.Recv.Reorder.{deliver, handle_frame-deliver}
use kwik.Stream.Recv.Faithful.{
  IsSlice, IsFaithful, seen_after, deliver-IsFaithful, poll_read-IsFaithful,
}

-- What can happen to a RecvStream: a frame arrives, or a round of Read looks for `n` bytes.
pub data Event : Type 0 where
  arrives : StreamFrame → Event
  reads : ℕ → Event

-- The bytes that Read has returned so far, and the stream.
abbrev pub Watched : Type 0
Watched = List ℕ × RecvStream

unfoldable pub watch : List ℕ → Option RecvStream → Option Watched
watch seen none = none
watch seen (some s) = some (seen, s)

-- One event, with the fuel of handleFrame's loop.
unfoldable pub step : ℕ → Watched → Event → Option Watched
step fuel (seen, s) (arrives f) = watch seen (handle_frame fuel s f)
step fuel (seen, s) (reads n) =
    let (outcome, s') = poll_read n s in some (seen_after seen outcome, s')

unfoldable pub run : ℕ → Watched → List Event → Option Watched
run fuel t [] = some t
run fuel t (e ∷ es) = elim (step fuel t e) [ none ↦ none | some t' ↦ run fuel t' es ]

-- Every frame that arrives holds a slice of what was sent, in place.
abbrev pub IsGenuine : List ℕ → Event → Type 0
IsGenuine sent (arrives f) = IsSlice sent f.offset f.payload
IsGenuine sent (reads n) = Unit

module _ (sent : List ℕ) (short : IsU64 (length sent)) where
  -- The run has a result that is faithful to what was sent.
  pub record FaithfulResult (result : Option Watched) : Type 0 where
    pub after : Watched
    pub returned : result ≡ some after
    pub faithful : IsFaithful sent after.0 after.1

  step-IsFaithful :
      (n : ℕ) (t : Watched) (e : Event)
      → IsGenuine sent e
      → IsFaithful sent t.0 t.1
      → FaithfulResult (step (suc (suc n)) t e)
  unfolding step watch
  step-IsFaithful n (seen, s) (arrives f) g v = record {
    after = (seen, deliver s f);
    returned = rw (handle_frame-deliver n s f) refl;
    faithful = deliver-IsFaithful sent short seen s f v g;
  }
  step-IsFaithful n (seen, s) (reads m) g v = record {
    after = (seen_after seen (poll_read m s).0, (poll_read m s).1);
    returned = refl;
    faithful = poll_read-IsFaithful sent short m seen s v;
  }

  run-IsFaithful :
      (n : ℕ) (t : Watched) (es : List Event)
      → All (IsGenuine sent) es
      → IsFaithful sent t.0 t.1
      → FaithfulResult (run (suc (suc n)) t es)
  unfolding run
  run-IsFaithful n t [] g v = record { after = t; returned = refl; faithful = v }
  run-IsFaithful n t (e ∷ es) g v =
      let one = step-IsFaithful n t e g.0 v in
      rw (one.returned, run) (run-IsFaithful n one.after es g.1 one.faithful)

  new_recv_stream-IsFaithful : (id : ℕ) → IsFaithful sent [] (new_recv_stream id)
  unfolding new_recv_stream lookup
  new_recv_stream-IsFaithful id = record {
    within = omega arith;
    prefix = refl;
    chunks = λ k bytes e. cc;
  }

  -- Let the frames that arrive at a new stream be slices of what was sent, in any order, again and
  -- again, or not at all, and let rounds of Read's loop run between them, each of which returns
  -- bytes or the end of the stream, or waits. Then the loop of handleFrame ends at each frame, and
  -- what Read has returned, followed by what waits in the read buffer, is the first
  -- `expected_offset` bytes of what was sent, and the buffered chunks are slices of it.
  pub run-new_recv_stream-IsFaithful :
      (n id : ℕ) (es : List Event)
      → All (IsGenuine sent) es
      → FaithfulResult (run (suc (suc n)) ([], new_recv_stream id) es)
  run-new_recv_stream-IsFaithful n id es g =
      run-IsFaithful n ([], new_recv_stream id) es g (new_recv_stream-IsFaithful id)
