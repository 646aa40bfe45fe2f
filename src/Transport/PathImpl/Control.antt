-- ===== src/Transport/PathImpl/Control.antt =====
-- internal/transport/path.go: the handshake that opens a stream, and the control frames.
use kwik.Prelude.{ℕ, suc, List, Bool, true, false, Option, none, some, if◌then◌else◌, ◌==◌, length}
use kwik.Prelude.Map.{lookup, insert, delete}
use kwik.Protocol.Errors.{Error, stream_exists, other}
use kwik.Protocol.Frame.{
  Frame, StreamFrame, stream, ack, ping, add_path, add_path_resp, relay_data, open_stream,
  open_stream_resp, OpenStreamRespFrame, RelayDataFrame,
}
use kwik.Transport.PathImpl.{
  PathImpl, ResponseChannel, Waiter, Call, call, submits, opens_path, handles_add_path_resp, relays,
  adds_path_to_stream, has_stream, open_stream_now, write_offset_for_stream, increment_write_offset,
}

abbrev pub add_stream : ℕ → PathImpl → PathImpl
add_stream sid p = record p { streams = insert sid 0 p.streams }

-- OpenStreamSync up to its select: the deferred function removes the channel when the packer
-- refuses the frame, and `refused` is its error.
unfoldable pub begin_open_stream : Option Error → ℕ → PathImpl → Option Error × PathImpl
begin_open_stream refused sid p =
    let asked = call (submits (open_stream sid)) p in
    let channel : ResponseChannel = record { response = none; registered = true } in
    if has_stream sid p then (some (stream_exists p.id sid), p) else elim refused [
      | none ↦ (
        none,
        record asked { open_stream_resp_ch = insert sid channel asked.open_stream_resp_ch },
      )
      | some e ↦
          (some e, record asked { open_stream_resp_ch = delete sid asked.open_stream_resp_ch })
    ]

-- How a call that waits ends, if it does.
pub data Wait : Type 0 where
  waits done : Wait
  fails : Error → Wait

-- ctx.Err() and fmt.Errorf("remote failed to open stream")
abbrev pub context_error : Error
context_error = other 2

abbrev pub remote_failed : Error
remote_failed = other 3

abbrev pub drop_response : ℕ → PathImpl → PathImpl
drop_response sid p = record p { open_stream_resp_ch = delete sid p.open_stream_resp_ch }

-- The select of OpenStreamSync on what is in its channel, where `expired` says that it takes the
-- end of the context.
abbrev pub open_stream_select : Bool → ℕ → Option OpenStreamRespFrame → PathImpl → Wait × PathImpl
open_stream_select true sid response p = (fails context_error, drop_response sid p)
open_stream_select false sid (some resp) p =
    if resp.success
    then (done, add_stream sid (drop_response sid p))
    else (fails remote_failed, drop_response sid p)
open_stream_select false sid none p = (waits, p)

abbrev pub response_in : Option ResponseChannel → Option OpenStreamRespFrame
response_in none = none
response_in (some channel) = channel.response

unfoldable pub finish_open_stream : Bool → ℕ → PathImpl → Wait × PathImpl
finish_open_stream expired sid p =
    open_stream_select expired sid (response_in (lookup sid p.open_stream_resp_ch)) p

-- LoadOrStore of a new channel: one that is no longer in the map is replaced.
abbrev pub load_or_store : Option Waiter → Waiter
load_or_store none = record { is_closed = false; registered = true }
load_or_store (some w) = if w.registered then w else record { is_closed = false; registered = true }

-- AcceptStream up to its select: `done` when the stream is there.
unfoldable pub begin_accept_stream : ℕ → PathImpl → Wait × PathImpl
begin_accept_stream sid p =
    let waiter = load_or_store (lookup sid p.accept_stream_waiters) in
    if has_stream sid p
    then (done, p)
    else (waits, record p { accept_stream_waiters = insert sid waiter p.accept_stream_waiters })

abbrev pub closed_in : Option Waiter → Bool
closed_in none = false
closed_in (some w) = w.is_closed

abbrev pub drop_waiter : ℕ → PathImpl → PathImpl
drop_waiter sid p = record p { accept_stream_waiters = delete sid p.accept_stream_waiters }

-- The select of AcceptStream.
unfoldable pub finish_accept_stream : Bool → ℕ → PathImpl → Wait × PathImpl
finish_accept_stream expired sid p =
    if expired
    then (fails context_error, drop_waiter sid p)
    else if closed_in (lookup sid p.accept_stream_waiters)
    then (done, add_stream sid (drop_waiter sid p))
    else (waits, p)

-- handleOpenStreamFrame: a channel in the map is closed, or a closed one is put there.
unfoldable pub handle_open_stream_frame : ℕ → PathImpl → PathImpl
handle_open_stream_frame sid p =
    let woken : Waiter = record { is_closed = true; registered = true } in
    let resp : OpenStreamRespFrame = record { stream_id = sid; success = true } in
    call (submits (open_stream_resp resp))
      (record p { accept_stream_waiters = insert sid woken p.accept_stream_waiters })

-- The send of HandleControlFrame into a channel with room for one.
abbrev pub fill : OpenStreamRespFrame → ResponseChannel → ResponseChannel
fill resp channel = elim channel.response [
  | none ↦ if channel.registered then record channel { response = some resp } else channel
  | some first ↦ channel
]

unfoldable pub handle_open_stream_resp : OpenStreamRespFrame → PathImpl → PathImpl
handle_open_stream_resp resp p = elim (lookup resp.stream_id p.open_stream_resp_ch) [
  | none ↦ p
  | some channel ↦ record p {
    open_stream_resp_ch = insert resp.stream_id (fill resp channel) p.open_stream_resp_ch;
  }
]

-- The case of a PingFrame that arrives at the time `now`.
unfoldable pub handle_ping : ℕ → PathImpl → PathImpl
handle_ping now p =
    let seen : PathImpl = record p {
      pongs_recv = suc p.pongs_recv;
      last_pong_at = now;
      missed_pongs = 0;
      healthy = true;
    } in
    if p.is_client then seen else call (submits ping) seen

abbrev pub client_call : Call → PathImpl → PathImpl
client_call c p = if p.is_client then call c p else p

-- HandleControlFrame with handleOtherControlFrames.
unfoldable pub handle_control_frame : ℕ → Frame → PathImpl → PathImpl
handle_control_frame now ping p = handle_ping now p
handle_control_frame now (open_stream_resp resp) p = handle_open_stream_resp resp p
handle_control_frame now (open_stream sid) p = handle_open_stream_frame sid p
handle_control_frame now (add_path address) p = client_call (opens_path address) p
handle_control_frame now (add_path_resp resp) p =
    if p.is_client then p else call (handles_add_path_resp resp) p
handle_control_frame now (relay_data f) p = client_call (relays f) p
handle_control_frame now (stream f) p = p
handle_control_frame now (ack f) p = p

abbrev pub data_frame : ℕ → ℕ → List ℕ → StreamFrame
data_frame sid offset bytes = record {
  stream_id = sid;
  offset = offset;
  fin = false;
  payload = bytes;
}

-- The frame that a goroutine of handleRelayDataFrame makes, at the offset that it reads.
unfoldable pub relay_frame : ℕ → List ℕ → PathImpl → StreamFrame
relay_frame sid bytes p = data_frame sid (write_offset_for_stream sid p) bytes

-- The end of handleRelayDataFrame, where no other goroutine comes in between: the data goes behind
-- what the stream has on the relay path.
unfoldable pub relay_on : ℕ → List ℕ → PathImpl → PathImpl
unfolding relay_frame
relay_on sid bytes p =
    call (submits (stream (relay_frame sid bytes p))) (increment_write_offset sid (length bytes) p)

-- Where such a goroutine stands: it reads the offset, increments it, and submits the frame, and
-- other goroutines may come in between.
pub data Stage : Type 0 where
  reads finished : Stage
  counts sends : StreamFrame → Stage

unfoldable pub advance : ℕ → List ℕ → Stage → PathImpl → Stage × PathImpl
advance sid bytes reads p = (counts (relay_frame sid bytes p), p)
advance sid bytes (counts f) p = (sends f, increment_write_offset sid (length bytes) p)
advance sid bytes (sends f) p = (finished, call (submits (stream f)) p)
advance sid bytes finished p = (finished, p)

-- The stream is opened on the relay path when it is not there; OpenStream fails on one that is.
unfoldable pub ensure_stream : ℕ → PathImpl → PathImpl
ensure_stream sid p =
    if has_stream sid p then p else call (adds_path_to_stream sid) (open_stream_now sid p).1

abbrev pub relay_to : RelayDataFrame → Option PathImpl → Option PathImpl
relay_to f none = none
relay_to f (some relay) =
    some (relay_on f.dest_stream_id f.raw_data (ensure_stream f.dest_stream_id relay))

-- handleRelayDataFrame on what GetPath answers: the path that the data leaves by.
unfoldable pub handle_relay_data_frame : RelayDataFrame → Option PathImpl → Option PathImpl
handle_relay_data_frame f relay = if f.dest_stream_id == 0 then relay else relay_to f relay
