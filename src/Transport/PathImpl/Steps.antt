-- ===== src/Transport/PathImpl/Steps.antt =====
-- The operations of a path in any order, and what holds behind all of them.
use kwik.Prelude.{ℕ, List, [], ◌∷◌, Bool, Option}
use kwik.Protocol.Errors.{Error}
use kwik.Protocol.Frame.{Frame, StreamFrame, stream}
use kwik.Transport.PathImpl.{
  PathImpl, state_of, call, submits, remove_stream, close_stream, submit_send_stream, write_seq,
  sync_write_offset, increment_write_offset, open_stream_now,
}
use kwik.Transport.PathImpl.Recovery.{handle_read_error, write_stream}
use kwik.Transport.PathImpl.Control.{
  begin_open_stream, finish_open_stream, begin_accept_stream, finish_accept_stream,
  handle_control_frame, ensure_stream,
}
use kwik.Transport.PathImpl.Lifecycle.{health_tick, close, conn_done}

-- One operation, with what the other objects answer to it.
pub data Op : Type 0 where
  removes_stream closes_stream : ℕ → Op
  submits_stream : Option Error → ℕ → Op
  takes_seq : ℕ → Op
  syncs_offset increments_offset : ℕ → ℕ → Op
  opens_now : ℕ → Op
  begins_open : Option Error → ℕ → Op
  finishes_open : Bool → ℕ → Op
  begins_accept : ℕ → Op
  finishes_accept : Bool → ℕ → Op
  receives : ℕ → Frame → Op
  -- the steps of handleRelayDataFrame on this path, which the goroutines for other frames may
  -- interleave: its stream, its increment of the offset (increments_offset) and its frame
  ensures_stream : ℕ → Op
  submits_data : StreamFrame → Op
  ticks : ℕ → Op
  writes_stream : Option (List ℕ) → Option ℕ → List ℕ → Op
  read_fails : Option ℕ → List ℕ → Op
  loses_conn closes : Op

unfoldable pub step : Op → PathImpl → PathImpl
step (removes_stream sid) p = remove_stream sid p
step (closes_stream sid) p = (close_stream sid p).1
step (submits_stream answer sid) p = (submit_send_stream answer sid p).1
step (takes_seq sid) p = (write_seq sid p).1
step (syncs_offset sid offset) p = (sync_write_offset sid offset p).1
step (increments_offset sid n) p = increment_write_offset sid n p
step (opens_now sid) p = (open_stream_now sid p).1
step (begins_open refused sid) p = (begin_open_stream refused sid p).1
step (finishes_open expired sid) p = (finish_open_stream expired sid p).1
step (begins_accept sid) p = (begin_accept_stream sid p).1
step (finishes_accept expired sid) p = (finish_accept_stream expired sid p).1
step (receives now f) p = handle_control_frame now f p
step (ensures_stream sid) p = ensure_stream sid p
step (submits_data f) p = call (submits (stream f)) p
step (ticks now) p = health_tick now p
step (writes_stream answer opened b) p = state_of (write_stream answer opened b p)
step (read_fails opened text) p = state_of (handle_read_error opened text p)
step loses_conn p = conn_done p
step closes p = state_of (close p)

unfoldable pub run : PathImpl → List Op → PathImpl
run p [] = p
run p (op ∷ ops) = run (step op p) ops
