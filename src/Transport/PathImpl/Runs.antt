-- ===== src/Transport/PathImpl/Runs.antt =====
-- The invariant of a path behind any operations.
use kwik.Prelude.{ℕ, List, [], ◌∷◌, Bool, Option, none, some, false, refl, arith, inl, inr}
use kwik.Prelude.Map.{lookup}
use kwik.Transport.PathImpl.{
  PathImpl, submits, submits_send_stream, has_stream, close_stream, submit_send_stream, write_seq,
  sync_write_offset, is_ready,
}
use kwik.Transport.PathImpl.Control.{finish_open_stream, begin_accept_stream, response_in}
use kwik.Transport.PathImpl.Lifecycle.{
  conn_done, new_path, start_path, initial_path, try_open, max_attempts,
}
use kwik.Protocol.Frame.{stream}
use kwik.Transport.PathImpl.Steps.{
  Op, step, run, removes_stream, closes_stream, submits_stream, takes_seq, syncs_offset,
  increments_offset, opens_now, begins_open, finishes_open, begins_accept, finishes_accept,
  receives, ensures_stream, submits_data, ticks, writes_stream, read_fails, loses_conn, closes,
}
use kwik.Transport.PathImpl.Settled.{readers, conn_closes, IsSettled, settle, core-call, core-pair}
use kwik.Transport.PathImpl.Quiet.{
  core-handle_control_frame, core-remove_stream, core-open_stream_now, core-begin_open_stream,
  core-open_stream_select, core-finish_accept_stream, core-increment_write_offset,
  core-ensure_stream, core-health_tick,
}
use kwik.Transport.PathImpl.Failing.{
  close_path_due_to_fatal_error-IsSettled, IsSettled-if, write_stream-IsSettled,
  handle_read_error-IsSettled,
}
use kwik.Transport.PathImpl.Closing.{close-IsSettled}

step-IsSettled : (op : Op) (p : PathImpl) → IsSettled p → IsSettled (step op p)
unfolding step close_stream submit_send_stream write_seq sync_write_offset finish_open_stream
    begin_accept_stream conn_done
step-IsSettled (removes_stream sid) p i = settle p _ (core-remove_stream sid p) i
step-IsSettled (closes_stream sid) p i =
    settle p _ (core-pair (has_stream sid p) _ _ p (core-remove_stream sid p) refl) i
step-IsSettled (submits_stream answer sid) p i =
    settle p _
      (core-pair (is_ready p.state) _ _ p (core-call (submits_send_stream sid) p (refl, refl)) refl)
      i
step-IsSettled (takes_seq sid) p i =
    settle p _
      (core-pair (is_ready p.state) _ _ p (core-pair (has_stream sid p) _ _ p refl refl) refl) i
step-IsSettled (syncs_offset sid offset) p i =
    settle p _ (core-pair (has_stream sid p) _ _ p refl refl) i
step-IsSettled (increments_offset sid n) p i = settle p _ (core-increment_write_offset sid n p) i
step-IsSettled (opens_now sid) p i = settle p _ (core-open_stream_now sid p) i
step-IsSettled (begins_open refused sid) p i = settle p _ (core-begin_open_stream refused sid p) i
step-IsSettled (finishes_open expired sid) p i =
    settle p _
      (core-open_stream_select expired sid (response_in (lookup sid p.open_stream_resp_ch)) p) i
step-IsSettled (begins_accept sid) p i = settle p _ (core-pair (has_stream sid p) _ _ p refl refl) i
step-IsSettled (finishes_accept expired sid) p i =
    settle p _ (core-finish_accept_stream expired sid p) i
step-IsSettled (receives now f) p i = settle p _ (core-handle_control_frame now f p) i
step-IsSettled (ensures_stream sid) p i = settle p _ (core-ensure_stream sid p) i
step-IsSettled (submits_data f) p i = settle p _ (core-call (submits (stream f)) p (refl, refl)) i
step-IsSettled (ticks now) p i = settle p _ (core-health_tick now p) i
step-IsSettled (writes_stream answer opened b) p i = write_stream-IsSettled answer opened b p i
step-IsSettled (read_fails opened text) p i = handle_read_error-IsSettled opened text p i
step-IsSettled loses_conn p i =
    IsSettled-if p.is_closed _ _ i (close_path_due_to_fatal_error-IsSettled p i)
step-IsSettled closes p i = close-IsSettled p i

run-IsSettled : (ops : List Op) (p : PathImpl) → IsSettled p → IsSettled (run p ops)
unfolding run
run-IsSettled [] p i = i
run-IsSettled (op ∷ ops) p i = run-IsSettled ops (step op p) (step-IsSettled op p i)

start_path-IsSettled :
    (id : ℕ) (is_client : Bool) (opened : Option ℕ)
    → IsSettled (start_path opened false (initial_path id is_client)).1
unfolding start_path initial_path readers conn_closes
start_path-IsSettled id is_client none = record {
  few_attempts = omega arith;
  few_readers = omega arith;
  closed_once = omega arith;
  not_in_use = λ h. cc;
  in_use = λ h. inr refl;
}
start_path-IsSettled id is_client (some s) = record {
  few_attempts = omega arith;
  few_readers = omega arith;
  closed_once = omega arith;
  not_in_use = λ h. cc;
  in_use = λ h. inl refl;
}

-- Let NewPath have made a path without the QUIC connection being lost before it stores the state
-- Ready. Then, whatever is done to it, in any order and with any answers of QUIC and
-- of the packer, it recovers its transport stream at most twice and starts at most one reader more
-- than that, it closes its QUIC connection at most once, and only when it is closed; a closed path
-- is in the state Failed or Closed, any other in Ready or Failed, so that no path is ever in the
-- state Recovering.
pub run-new_path-IsSettled :
    (id : ℕ) (is_client : Bool) (answers : ℕ → Option ℕ) (ops : List Op)
    → IsSettled (run (new_path id is_client answers false).1 ops)
unfolding new_path
run-new_path-IsSettled id is_client answers ops =
    run-IsSettled ops _ (start_path-IsSettled id is_client (try_open max_attempts answers))
