-- ===== src/Transport/PathImpl/Rendezvous.antt =====
-- The handshake between the two paths of a connection that opens a stream.
use kwik.Prelude.{
  ℕ, ◌≡◌, refl, ap, ◌∙◌, [], ◌∷◌, ◌++◌, Bool, false, true, none, some, ◌==◌, ==_self, if_false,
  Bool-cases, Option-cases, sym, subst, inl, inr,
}
use kwik.Prelude.Map.{Map, lookup, insert, lookup-insert}
use kwik.Protocol.Frame.{Frame, open_stream, open_stream_resp, OpenStreamRespFrame}
use kwik.Transport.PathImpl.{
  PathImpl, closed, returns, submits, Waiter, ResponseChannel, state_of, forget_stream,
}
use kwik.Transport.PathImpl.Control.{
  Wait, done, begin_open_stream, finish_open_stream, begin_accept_stream, finish_accept_stream,
  handle_control_frame, handle_open_stream_frame, handle_open_stream_resp, closed_in, response_in,
  fill, load_or_store,
}
use kwik.Transport.PathImpl.Lifecycle.{
  close, begin_close, finish_close, forget_all, close_waiters, drop_channels,
}

abbrev pub response : ℕ → Bool → Frame
response sid success = open_stream_resp (record { stream_id = sid; success = success })

-- How a call has ended on a path, and what its stream is there.
pub record Joined (sid : ℕ) (r : Wait × PathImpl) : Type 0 where
  pub ended : r.0 ≡ done
  pub stream : lookup sid r.1.streams ≡ some 0

lookup-insert_self : {V : Type 0} (k : ℕ) (v : V) (m : Map V) → lookup k (insert k v m) ≡ some v
lookup-insert_self k v m = rw (lookup-insert k k v m, ==_self k) refl

-- AcceptStream behind a channel that has been closed.
finish_accept_stream-Joined :
    (sid : ℕ) (p : PathImpl)
    → closed_in (lookup sid p.accept_stream_waiters) ≡ true
    → Joined sid (finish_accept_stream false sid p)
unfolding finish_accept_stream
finish_accept_stream-Joined sid p h =
    rw (h, finish_accept_stream)
      (record { ended = refl; stream = lookup-insert_self sid 0 p.streams })

accepts_first :
    (now sid : ℕ) (p : PathImpl)
    → lookup sid p.streams ≡ none
    → Joined sid (
        finish_accept_stream false sid
          (handle_control_frame now (open_stream sid) (begin_accept_stream sid p).1))
unfolding handle_control_frame handle_open_stream_frame
accepts_first now sid p h = finish_accept_stream-Joined sid _ (
    ap closed_in (
      lookup-insert_self sid (record { is_closed = true; registered = true })
        (begin_accept_stream sid p).1.accept_stream_waiters))

accepts_later :
    (now sid : ℕ) (p : PathImpl)
    → lookup sid p.streams ≡ none
    → Joined sid (
        finish_accept_stream false sid
          (begin_accept_stream sid (handle_control_frame now (open_stream sid) p)).1)
unfolding handle_control_frame handle_open_stream_frame begin_accept_stream
accepts_later now sid p h =
    let woken : Waiter = record { is_closed = true; registered = true } in
    let m = insert sid woken p.accept_stream_waiters in
    let there : lookup sid m ≡ some woken = lookup-insert_self sid woken p.accept_stream_waiters in
    rw (h, begin_accept_stream)
      (finish_accept_stream-Joined sid _
        (rw (lookup-insert_self sid (load_or_store (lookup sid m)) m, there) refl))

-- OpenStreamSync behind a response that has come.
finish_open_stream-Joined :
    (sid : ℕ) (p : PathImpl)
    → response_in (lookup sid p.open_stream_resp_ch)
      ≡ some (record { stream_id = sid; success = true })
    → Joined sid (finish_open_stream false sid p)
unfolding finish_open_stream
finish_open_stream-Joined sid p h =
    rw (h, finish_open_stream)
      (record { ended = refl; stream = lookup-insert_self sid 0 p.streams })

handle_open_stream_resp-lookup :
    (resp : OpenStreamRespFrame) (channel : ResponseChannel) (p : PathImpl)
    → lookup resp.stream_id p.open_stream_resp_ch ≡ some channel
    → lookup resp.stream_id (handle_open_stream_resp resp p).open_stream_resp_ch
      ≡ some (fill resp channel)
unfolding handle_open_stream_resp
handle_open_stream_resp-lookup resp channel p h =
    rw (h, handle_open_stream_resp)
      (lookup-insert_self resp.stream_id (fill resp channel) p.open_stream_resp_ch)

empty_channel : ResponseChannel
empty_channel = record { response = none; registered = true }

begin_open_stream-lookup :
    (sid : ℕ) (p : PathImpl)
    → lookup sid p.streams ≡ none
    → let begun = begin_open_stream none sid p in
      (begun.0 ≡ none)
      × (begun.1.calls ≡ p.calls ++ (submits (open_stream sid) ∷ []))
      × (lookup sid begun.1.open_stream_resp_ch ≡ some empty_channel)
unfolding begin_open_stream empty_channel
begin_open_stream-lookup sid p h =
    rw (h, begin_open_stream)
      (refl, refl, lookup-insert_self sid empty_channel p.open_stream_resp_ch)

opens :
    (now sid : ℕ) (p : PathImpl)
    → lookup sid p.streams ≡ none
    → Joined sid (
        finish_open_stream false sid
          (handle_control_frame now (response sid true) (begin_open_stream none sid p).1))
unfolding handle_control_frame empty_channel
opens now sid p h = finish_open_stream-Joined sid _ (
    ap response_in (
      handle_open_stream_resp-lookup (record { stream_id = sid; success = true }) empty_channel
        (begin_open_stream none sid p).1 (begin_open_stream-lookup sid p h).2))

-- A path that handles an OpenStreamFrame submits a response which reports success.
answers :
    (now sid : ℕ) (q : PathImpl)
    → (handle_control_frame now (open_stream sid) q).calls
      ≡ q.calls ++ (submits (response sid true) ∷ [])
unfolding handle_control_frame handle_open_stream_frame
answers now sid q = refl

-- Two paths lack a stream. OpenStreamSync on one of them submits an OpenStreamFrame; the other, when
-- it handles this frame, submits a response which reports success, and its AcceptStream ends
-- without an error, with the new stream at offset 0, whether it was called before the frame came or
-- behind it. When the first path handles the response, its OpenStreamSync ends without an error,
-- with the new stream at offset 0. The contexts are taken not to expire meanwhile.
pub open_stream-accept_stream :
    (now sid : ℕ) (p q : PathImpl)
    → lookup sid p.streams ≡ none
    → lookup sid q.streams ≡ none
    → let begun = (begin_open_stream none sid p).1 in
      let asked = handle_control_frame now (open_stream sid) in
      (begun.calls ≡ p.calls ++ (submits (open_stream sid) ∷ []))
      × ((asked q).calls ≡ q.calls ++ (submits (response sid true) ∷ []))
      × Joined sid (finish_accept_stream false sid (asked (begin_accept_stream sid q).1))
      × Joined sid (finish_accept_stream false sid (begin_accept_stream sid (asked q)).1)
      × Joined sid
          (finish_open_stream false sid (handle_control_frame now (response sid true) begun))
open_stream-accept_stream now sid p q hp hq = (
  (begin_open_stream-lookup sid p hp).1,
  answers now sid q,
  accepts_first now sid q hq,
  accepts_later now sid q hq,
  opens now sid p hp,
)

-- Close on a path whose AcceptStream waits.
forget_all-kept :
    (m : Map ℕ) (p : PathImpl)
    → let q = forget_all m p in
      (q.streams ≡ p.streams)
      × (q.accept_stream_waiters ≡ p.accept_stream_waiters)
      × (q.is_closed ≡ p.is_closed)
      × (q.state ≡ p.state)
unfolding forget_all
forget_all-kept [] p = (refl, refl, refl, refl)
forget_all-kept (entry ∷ m) p = forget_all-kept m (forget_stream entry.0 p)

has-close_waiters :
    (sid : ℕ) (w : Waiter) (m : Map Waiter)
    → lookup sid m ≡ some w
    → closed_in (lookup sid (close_waiters m)) ≡ true
unfolding lookup close_waiters
has-close_waiters sid w [] h = cc
has-close_waiters sid w (entry ∷ m) h = elim (Bool-cases (entry.0 == sid)) [
  | inl e ↦ rw e refl
  | inr e ↦ rw e (has-close_waiters sid w m (rw e at h))
]

-- A closed path that yet has the stream.
pub record Revived (sid : ℕ) (r : Wait × PathImpl) : Type 0 where
  pub joined : Joined sid r
  pub marked : r.1.is_closed ≡ true
  pub status : r.1.state ≡ closed

finish_accept_stream-Revived :
    (sid : ℕ) (p : PathImpl)
    → closed_in (lookup sid p.accept_stream_waiters) ≡ true
    → p.is_closed ≡ true
    → p.state ≡ closed
    → Revived sid (finish_accept_stream false sid p)
unfolding finish_accept_stream
finish_accept_stream-Revived sid p h marked status =
    let joined = finish_accept_stream-Joined sid p h in
    rw (h, finish_accept_stream)
      (record {
        joined = record { ended = refl; stream = lookup-insert_self sid 0 p.streams };
        marked = marked;
        status = status;
      })

finish_close-kept :
    (p : PathImpl)
    → let q = finish_close p in
      (q.accept_stream_waiters ≡ p.accept_stream_waiters)
      × (q.is_closed ≡ p.is_closed)
      × (q.state ≡ p.state)
unfolding finish_close
finish_close-kept p = elim (Option-cases p.transport_stream) [
  | inl e ↦ rw (e, finish_close) (refl, refl, refl)
  | inr (s, e) ↦ rw (e, finish_close) (refl, refl, refl)
]

begin_close-Revived :
    (sid : ℕ) (w : Waiter) (p : PathImpl)
    → lookup sid p.accept_stream_waiters ≡ some w
    → Revived sid (finish_accept_stream false sid (finish_close (begin_close p)))
unfolding begin_close
begin_close-Revived sid w p h =
    let q : PathImpl = record p {
      is_closed = true;
      state = closed;
      streams = [];
      accept_stream_waiters = close_waiters p.accept_stream_waiters;
      open_stream_resp_ch = drop_channels p.open_stream_resp_ch;
    } in
    let kept = forget_all-kept p.streams q in
    let end = finish_close-kept (begin_close p) in
    finish_accept_stream-Revived sid (finish_close (begin_close p))
      (ap (λ m. closed_in (lookup sid m)) (end.0 ∙ kept.1)
        ∙ has-close_waiters sid w p.accept_stream_waiters h)
      (end.1 ∙ kept.2) (end.2 ∙ kept.3)

-- On a path that is open, lacks the stream and on which no goroutine is stuck, an AcceptStream that
-- waits while Close runs ends without an error, and then the path, closed, has the stream.
pub finish_accept_stream-close :
    (sid : ℕ) (p : PathImpl)
    → lookup sid p.streams ≡ none
    → p.is_closed ≡ false
    → p.transport_stream_locked ≡ false
    → Revived sid (finish_accept_stream false sid (state_of (close (begin_accept_stream sid p).1)))
unfolding close begin_accept_stream
finish_accept_stream-close sid p h open_path unlocked =
    let w : Waiter = load_or_store (lookup sid p.accept_stream_waiters) in
    let q : PathImpl = record p { accept_stream_waiters = insert sid w p.accept_stream_waiters } in
    let waiting : (begin_accept_stream sid p).1 ≡ q = rw (h, begin_accept_stream) refl in
    let ended : close q ≡ returns tt (finish_close (begin_close q)) =
      if_false p.is_closed _ _ open_path ∙ if_false p.transport_stream_locked _ _ unlocked in
    subst (λ x. Revived sid (finish_accept_stream false sid (state_of (close x)))) (sym waiting)
      (subst (λ e. Revived sid (finish_accept_stream false sid (state_of e))) (sym ended)
        (begin_close-Revived sid w q (lookup-insert_self sid w p.accept_stream_waiters)))
