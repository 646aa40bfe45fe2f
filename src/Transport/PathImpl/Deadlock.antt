-- ===== src/Transport/PathImpl/Deadlock.antt =====
-- A write that fails holds transportStreamMu while it recovers the transport stream, and the
-- recovery locks the same mutex.
use kwik.Prelude.{
  ℕ, ◌≤◌, ◌<◌, List, [], ◌∷◌, Bool, true, false, Option, some, ◌≡◌, refl, arith, ap, ◌∙◌,
  if◌then◌else◌, if_true, if_false, ltb, leb, length, Bool-cases, inl, inr, ◌⊎◌,
}
use kwik.Prelude.Map.{lookup}
use kwik.Transport.PathImpl.{
  PathImpl, PathState, ready, call, submits, state_of, Ending, returns, blocks, is_ready,
  close_stream, submit_send_stream, write_seq, sync_write_offset, has_stream, submits_send_stream,
  max_recovery_attempts, writes, reports_failure,
}
use kwik.Transport.PathImpl.ErrorText.{is_fatal_connection_error}
use kwik.Transport.PathImpl.Recovery.{
  close_old, close_path_due_to_fatal_error, try_recover_transport_stream, handle_write_error,
  handle_read_error, write_stream, write_locked, path_not_ready, is_eof, map_ending, unlock,
  counted, write_to, write_error_text,
}
use kwik.Transport.PathImpl.Control.{begin_accept_stream, finish_open_stream, response_in}
use kwik.Transport.PathImpl.Lifecycle.{conn_done, close, begin_close, close_waiters, drop_channels}
use kwik.Protocol.Frame.{stream}
use kwik.Transport.PathImpl.Steps.{
  Op, step, run, removes_stream, closes_stream, submits_stream, takes_seq, syncs_offset,
  increments_offset, opens_now, begins_open, finishes_open, begins_accept, finishes_accept,
  receives, ensures_stream, submits_data, ticks, writes_stream, read_fails, loses_conn, closes,
}
use kwik.Transport.PathImpl.Settled.{core, core-call, core-pair, conn_closes}
use kwik.Transport.PathImpl.Quiet.{
  core-handle_control_frame, core-remove_stream, core-open_stream_now, core-begin_open_stream,
  core-open_stream_select, core-finish_accept_stream, core-increment_write_offset,
  core-ensure_stream, core-health_tick,
}
use kwik.Transport.PathImpl.Failing.{core-close_old}
use kwik.Transport.PathImpl.Closing.{core-forget_all}
use kwik.Transport.Wire.{wire}

-- Both mutexes are held for ever, and Close has been through to the end `n` times.
record IsLocked (n : ℕ) (p : PathImpl) : Type 0 where
  stream_lock : p.transport_stream_locked ≡ true
  recovery_lock : p.recovery_locked ≡ true
  close_calls : conn_closes p.calls ≡ n

module _ {n : ℕ} where
  keep : (p q : PathImpl) → core q ≡ core p → IsLocked n p → IsLocked n q
  keep p q h l =
      let s : q.transport_stream_locked ≡ p.transport_stream_locked = ap (λ c. c.stream_lock) h in
      let r : q.recovery_locked ≡ p.recovery_locked = ap (λ c. c.recovery_lock) h in
      let k : conn_closes q.calls ≡ conn_closes p.calls = ap (λ c. c.close_calls) h in
      record {
        stream_lock = s ∙ l.stream_lock;
        recovery_lock = r ∙ l.recovery_lock;
        close_calls = k ∙ l.close_calls;
      }

  IsLocked-if_ending :
      {A : Type 0} (b : Bool) (x y : Ending A)
      → IsLocked n (state_of x)
      → IsLocked n (state_of y)
      → IsLocked n (state_of (if b then x else y))
  IsLocked-if_ending true x y hx hy = hx
  IsLocked-if_ending false x y hx hy = hy

  IsLocked-if_true :
      {A : Type 0} (b : Bool) (x y : Ending A)
      → b ≡ true
      → IsLocked n (state_of x)
      → IsLocked n (state_of (if b then x else y))
  IsLocked-if_true true x y h hx = hx
  IsLocked-if_true false x y h hx = cc

  failure-IsLocked : (p : PathImpl) → IsLocked n p → IsLocked n (close_path_due_to_fatal_error p)
  unfolding close_path_due_to_fatal_error
  failure-IsLocked p l =
      let marked : PathImpl = record p { is_closed = true; state = PathState.failed } in
      keep marked _
        (core-call reports_failure (close_old p.transport_stream marked) (refl, refl)
          ∙ core-close_old p.transport_stream marked)
        (record {
          stream_lock = l.stream_lock;
          recovery_lock = l.recovery_lock;
          close_calls = l.close_calls;
        })

  recover-IsLocked :
      (opened : Option ℕ) (p : PathImpl)
      → IsLocked n p
      → IsLocked n (state_of (try_recover_transport_stream opened p))
  unfolding try_recover_transport_stream
  recover-IsLocked opened p l =
      IsLocked-if_ending p.fatal_error _ _ l
        (IsLocked-if_true p.recovery_locked _ _ l.recovery_lock l)

  write-IsLocked :
      (answer : Option (List ℕ)) (opened : Option ℕ) (b : List ℕ) (p : PathImpl)
      → IsLocked n p
      → IsLocked n (state_of (write_stream answer opened b p))
  unfolding write_stream
  write-IsLocked answer opened b p l = IsLocked-if_ending (ltb (length b) 4) _ _ l (
      IsLocked-if_ending (is_ready p.state) _ _
        (IsLocked-if_true p.transport_stream_locked _ _ l.stream_lock l) l)

  read-IsLocked :
      (opened : Option ℕ) (text : List ℕ) (p : PathImpl)
      → IsLocked n p
      → IsLocked n (state_of (handle_read_error opened text p))
  unfolding handle_read_error
  read-IsLocked opened text p l = IsLocked-if_ending (is_eof text) _ _ l (
      IsLocked-if_ending (is_fatal_connection_error text) _ _
        (failure-IsLocked (record p { fatal_error = true })
          (keep p (record p { fatal_error = true }) refl l))
        (recover-IsLocked opened p l))

  begin_close-IsLocked : (p : PathImpl) → IsLocked n p → IsLocked n (begin_close p)
  unfolding begin_close
  begin_close-IsLocked p l =
      let q : PathImpl = record p {
        is_closed = true;
        state = PathState.closed;
        streams = [];
        accept_stream_waiters = close_waiters p.accept_stream_waiters;
        open_stream_resp_ch = drop_channels p.open_stream_resp_ch;
      } in
      keep q _ (core-forget_all p.streams q) (record {
        stream_lock = l.stream_lock;
        recovery_lock = l.recovery_lock;
        close_calls = l.close_calls;
      })

  close-IsLocked : (p : PathImpl) → IsLocked n p → IsLocked n (state_of (close p))
  unfolding close
  close-IsLocked p l =
      IsLocked-if_ending p.is_closed _ _ l
        (IsLocked-if_true p.transport_stream_locked _ _ l.stream_lock (begin_close-IsLocked p l))

  IsLocked-if :
      (b : Bool) (x y : PathImpl) → IsLocked n x → IsLocked n y → IsLocked n (if b then x else y)
  IsLocked-if true x y hx hy = hx
  IsLocked-if false x y hx hy = hy

  step-IsLocked : (op : Op) (p : PathImpl) → IsLocked n p → IsLocked n (step op p)
  unfolding step close_stream submit_send_stream write_seq sync_write_offset finish_open_stream
      begin_accept_stream conn_done
  step-IsLocked (removes_stream sid) p l = keep p _ (core-remove_stream sid p) l
  step-IsLocked (closes_stream sid) p l =
      keep p _ (core-pair (has_stream sid p) _ _ p (core-remove_stream sid p) refl) l
  step-IsLocked (submits_stream answer sid) p l =
      keep p _
        (core-pair (is_ready p.state) _ _ p (core-call (submits_send_stream sid) p (refl, refl))
          refl)
        l
  step-IsLocked (takes_seq sid) p l =
      keep p _
        (core-pair (is_ready p.state) _ _ p (core-pair (has_stream sid p) _ _ p refl refl) refl) l
  step-IsLocked (syncs_offset sid offset) p l =
      keep p _ (core-pair (has_stream sid p) _ _ p refl refl) l
  step-IsLocked (increments_offset sid k) p l = keep p _ (core-increment_write_offset sid k p) l
  step-IsLocked (opens_now sid) p l = keep p _ (core-open_stream_now sid p) l
  step-IsLocked (begins_open refused sid) p l = keep p _ (core-begin_open_stream refused sid p) l
  step-IsLocked (finishes_open expired sid) p l =
      keep p _
        (core-open_stream_select expired sid (response_in (lookup sid p.open_stream_resp_ch)) p) l
  step-IsLocked (begins_accept sid) p l = keep p _ (core-pair (has_stream sid p) _ _ p refl refl) l
  step-IsLocked (finishes_accept expired sid) p l =
      keep p _ (core-finish_accept_stream expired sid p) l
  step-IsLocked (receives now f) p l = keep p _ (core-handle_control_frame now f p) l
  step-IsLocked (ensures_stream sid) p l = keep p _ (core-ensure_stream sid p) l
  step-IsLocked (submits_data f) p l = keep p _ (core-call (submits (stream f)) p (refl, refl)) l
  step-IsLocked (ticks now) p l = keep p _ (core-health_tick now p) l
  step-IsLocked (writes_stream answer opened b) p l = write-IsLocked answer opened b p l
  step-IsLocked (read_fails opened text) p l = read-IsLocked opened text p l
  step-IsLocked loses_conn p l = IsLocked-if p.is_closed _ _ l (failure-IsLocked p l)
  step-IsLocked closes p l = close-IsLocked p l

  run-IsLocked : (ops : List Op) (p : PathImpl) → IsLocked n p → IsLocked n (run p ops)
  unfolding run
  run-IsLocked [] p l = l
  run-IsLocked (op ∷ ops) p l = run-IsLocked ops (step op p) (step-IsLocked op p l)

-- A path whose next write may recover: it is ready, nobody holds a mutex, and the recoveries are
-- not used up.
pub record CanRecover (p : PathImpl) : Type 0 where
  pub in_use : p.state ≡ ready
  pub connected : (s : ℕ) × (p.transport_stream ≡ some s)
  pub unlocked : p.transport_stream_locked ≡ false
  pub idle : p.recovery_locked ≡ false
  pub alive : p.fatal_error ≡ false
  pub attempts_left : p.stream_recovery_attempts < 2

-- A call that never ends.
abbrev pub IsBlocked {ℓ} : {A : Type ℓ} → Ending A → Type 0
IsBlocked (returns a p) = ⊥
IsBlocked (blocks p) = Unit

-- A recovery under the lock of the transport stream.
recover-blocks :
    (opened : Option ℕ) (p : PathImpl)
    → p.fatal_error ≡ false
    → p.recovery_locked ≡ false
    → p.stream_recovery_attempts < 2
    → p.transport_stream_locked ≡ true
    → try_recover_transport_stream opened p ≡ blocks (record (counted p) { recovery_locked = true })
unfolding try_recover_transport_stream
recover-blocks opened p alive idle left held =
    if_false p.fatal_error _ _ alive
    ∙ if_false p.recovery_locked _ _ idle
    ∙ if_false (leb max_recovery_attempts p.stream_recovery_attempts) _ _ (ground (arith, left))
    ∙ if_true p.transport_stream_locked _ _ held

-- The path behind a write that has blocked.
abbrev stuck_path : ℕ → List ℕ → PathImpl → PathImpl
stuck_path s b p =
    record (counted (call (writes s (wire b)) (record p { transport_stream_locked = true }))) {
      recovery_locked = true;
    }

write_stream-stuck_path :
    (p : PathImpl) (b text : List ℕ) (opened : Option ℕ)
    → (c : CanRecover p) → 4 ≤ length b
    → is_fatal_connection_error text ≡ false
    → write_stream (some text) opened b p ≡ blocks (stuck_path c.connected.0 b p)
unfolding write_stream write_locked handle_write_error
write_stream-stuck_path p b text opened c enough harmless =
    let s : ℕ = c.connected.0 in
    let q : PathImpl = call (writes s (wire b)) (record p { transport_stream_locked = true }) in
    let in_use : is_ready p.state ≡ true = rw c.in_use refl in
    if_false (ltb (length b) 4) _ _ (ground (arith, enough))
    ∙ if_true (is_ready p.state) _ _ in_use
    ∙ if_false p.transport_stream_locked _ _ c.unlocked
    ∙ ap (λ o. write_to (some text) opened b o p) c.connected.1
    ∙ ap unlock (
        if_false (is_fatal_connection_error text) _ _ harmless
        ∙ ap (map_ending (write_error_text text))
            (recover-blocks opened q c.alive c.idle c.attempts_left refl))

stuck_path-IsLocked :
    (s : ℕ) (b : List ℕ) (p : PathImpl) → IsLocked (conn_closes p.calls) (stuck_path s b p)
stuck_path-IsLocked s b p = record {
  stream_lock = refl;
  recovery_lock = refl;
  close_calls = ap (λ c. c.close_calls) (core-call (writes s (wire b)) p (refl, refl));
}

-- What a later write can come to.
locked-write :
    {n : ℕ} (answer : Option (List ℕ)) (opened : Option ℕ) (b : List ℕ) (p : PathImpl)
    → IsLocked n p
    → 4 ≤ length b
    → (write_stream answer opened b p ≡ blocks p)
      ⊎ (write_stream answer opened b p ≡ returns path_not_ready p)
unfolding write_stream
locked-write answer opened b p l enough =
    let long : ltb (length b) 4 ≡ false = ground (arith, enough) in
    elim (Bool-cases (is_ready p.state)) [
      | inl r ↦ inl (
          if_false (ltb (length b) 4) _ _ long
          ∙ if_true (is_ready p.state) _ _ r
          ∙ if_true p.transport_stream_locked _ _ l.stream_lock)
      | inr r ↦ inr (if_false (ltb (length b) 4) _ _ long ∙ if_false (is_ready p.state) _ _ r)
    ]

-- A write of four bytes at least that fails with an error that is not fatal, on a path that still
-- may recover, never returns, whatever stream QUIC could open for it. After any further operations
-- a write of four bytes at least blocks or is refused as the path is not ready, and no Close has
-- closed the QUIC connection since.
pub write_stream_deadlock :
    (p : PathImpl) (b text : List ℕ) (opened : Option ℕ) (ops : List Op) (answer : Option (List ℕ))
    (later : Option ℕ) (d : List ℕ)
    → CanRecover p
    → 4 ≤ length b
    → 4 ≤ length d
    → is_fatal_connection_error text ≡ false
    → let e = write_stream (some text) opened b p in
      let q = run (state_of e) ops in
      IsBlocked e
      × ((write_stream answer later d q ≡ blocks q)
          ⊎ (write_stream answer later d q ≡ returns path_not_ready q))
      × (conn_closes q.calls ≡ conn_closes p.calls)
write_stream_deadlock p b text opened ops answer later d c enough long harmless =
    let l : IsLocked (conn_closes p.calls) (run (stuck_path c.connected.0 b p) ops) =
      run-IsLocked ops _ (stuck_path-IsLocked c.connected.0 b p) in
    rw (write_stream-stuck_path p b text opened c enough harmless)
      (tt, locked-write answer later d _ l long, l.close_calls)
