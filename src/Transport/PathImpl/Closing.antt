-- ===== src/Transport/PathImpl/Closing.antt =====
-- The invariant of a path behind Close.
use kwik.Prelude.{ℕ, ◌≤◌, [], ◌∷◌, true, false, none, ◌≡◌, refl, arith, ap, ◌∙◌, inr}
use kwik.Prelude.Map.{Map}
use kwik.Transport.PathImpl.{
  PathImpl, closed, call, closes_conn, state_of, unregisters, forget_stream,
}
use kwik.Transport.PathImpl.Recovery.{close_old}
use kwik.Transport.PathImpl.Lifecycle.{
  close, begin_close, finish_close, forget_all, close_waiters, drop_channels,
}
use kwik.Transport.PathImpl.Settled.{
  readers, conn_closes, readers-append, conn_closes-append, IsSettled, core, settle, core-call,
}
use kwik.Transport.PathImpl.Quiet.{core-forget_stream}
use kwik.Transport.PathImpl.Failing.{core-close_old, IsSettled-if_ending}

pub core-forget_all : (m : Map ℕ) (p : PathImpl) → core (forget_all m p) ≡ core p
unfolding forget_all
core-forget_all [] p = refl
core-forget_all (entry ∷ m) p =
    core-forget_all m (forget_stream entry.0 p) ∙ core-forget_stream entry.0 p

-- A path that has closed, and not its connection yet.
record IsClosing (p : PathImpl) : Type 0 where
  pub settled : IsSettled p
  pub marked : p.is_closed ≡ true
  pub open_conn : conn_closes p.calls ≡ 0

begin_close-IsClosing :
    (p : PathImpl) → IsSettled p → p.is_closed ≡ false → IsClosing (begin_close p)
unfolding begin_close
begin_close-IsClosing p i h =
    let q : PathImpl = record p {
      is_closed = true;
      state = closed;
      streams = [];
      accept_stream_waiters = close_waiters p.accept_stream_waiters;
      open_stream_resp_ch = drop_channels p.open_stream_resp_ch;
    } in
    let e : core (forget_all p.streams q) ≡ core q = core-forget_all p.streams q in
    let none_yet : conn_closes p.calls ≤ 0 = rw h at i.closed_once in
    let kept : conn_closes (forget_all p.streams q).calls ≡ conn_closes p.calls =
      ap (λ c. c.close_calls) e in
    record {
      settled = settle q _ e (record {
        few_attempts = i.few_attempts;
        few_readers = i.few_readers;
        closed_once = omega arith;
        not_in_use = λ h. inr refl;
        in_use = λ h. cc;
      });
      marked = ap (λ c. c.flag) e;
      open_conn = omega arith;
    }

core-IsClosing : (p q : PathImpl) → core q ≡ core p → IsClosing p → IsClosing q
core-IsClosing p q h c =
    let f : q.is_closed ≡ p.is_closed = ap (λ x. x.flag) h in
    let n : conn_closes q.calls ≡ conn_closes p.calls = ap (λ x. x.close_calls) h in
    record { settled = settle p q h c.settled; marked = f ∙ c.marked; open_conn = n ∙ c.open_conn }

closes_conn-IsSettled : (p : PathImpl) → IsClosing p → IsSettled (call closes_conn p)
unfolding readers conn_closes
closes_conn-IsSettled p c = record {
  few_attempts = c.settled.few_attempts;
  few_readers = omega (arith, readers-append p.calls (closes_conn ∷ []), c.settled.few_readers);
  closed_once =
      rw c.marked (omega (arith, conn_closes-append p.calls (closes_conn ∷ []), c.open_conn));
  not_in_use = c.settled.not_in_use;
  in_use = c.settled.in_use;
}

finish_close-IsSettled : (p : PathImpl) → IsClosing p → IsSettled (finish_close p)
unfolding finish_close
finish_close-IsSettled p c =
    let q : PathImpl = record (close_old p.transport_stream p) { transport_stream = none } in
    closes_conn-IsSettled (call unregisters q) (
      core-IsClosing p (call unregisters q)
        (core-call unregisters q (refl, refl) ∙ core-close_old p.transport_stream p) c)

pub close-IsSettled : (p : PathImpl) → IsSettled p → IsSettled (state_of (close p))
unfolding close
close-IsSettled p i =
    IsSettled-if_ending p.is_closed _ _ (λ h. i)
      λ h.
        IsSettled-if_ending p.transport_stream_locked _ _
          (λ l. (begin_close-IsClosing p i h).settled)
          λ l. finish_close-IsSettled (begin_close p) (begin_close-IsClosing p i h)
