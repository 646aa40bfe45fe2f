-- ===== src/Transport/PathImpl/Lifecycle.antt =====
-- internal/transport/path.go: NewPath, the health loop and Close.
use kwik.Prelude.{
  ℕ, zero, suc, ◌-◌, ◌*◌, [], ◌∷◌, Bool, true, false, Option, none, some, if◌then◌else◌, ltb, leb,
  ◌==◌, ◌||◌,
}
use kwik.Prelude.Map.{Map}
use kwik.Transport.PathImpl.{
  PathImpl, initializing, ready, failed, closed, ResponseChannel, Waiter, call, registers,
  unregisters, closes_conn, starts_reader, health_interval_ms, missed_pong_threshold, forget_stream,
  Ending, returns, blocks,
}
use kwik.Transport.PathImpl.Recovery.{close_old, close_path_due_to_fatal_error}

abbrev pub max_attempts : ℕ
max_attempts = 3

-- The loop that opens or accepts the transport stream: `answers` is what QUIC returns to each try.
unfoldable pub try_open : ℕ → (ℕ → Option ℕ) → Option ℕ
try_open zero answers = none
try_open (suc left) answers =
    let rest = try_open left (λ i. answers (suc i)) in
    elim (answers 0) [ none ↦ rest | some stream ↦ some stream ]

unfoldable pub initial_path : ℕ → Bool → PathImpl
initial_path id is_client = record {
  id = id;
  is_client = is_client;
  streams = [];
  state = initializing;
  is_closed = false;
  global_write_seq = 0;
  transport_stream = none;
  transport_stream_locked = false;
  recovery_locked = false;
  healthy = true;
  pings_sent = 0;
  pongs_recv = 0;
  missed_pongs = 0;
  last_pong_at = 0;
  stream_recovery_attempts = 0;
  fatal_error = false;
  open_stream_resp_ch = [];
  accept_stream_waiters = [];
  calls = registers ∷ [];
}

-- The goroutine that waits for the end of the QUIC connection.
unfoldable pub conn_done : PathImpl → PathImpl
conn_done p = if p.is_closed then p else close_path_due_to_fatal_error p

-- The path that NewPath makes, and whether it returns it: it returns nil for one that has failed.
-- `lost` says that the connection ends between the start of that goroutine and the last store.
unfoldable pub start_path : Option ℕ → Bool → PathImpl → Bool × PathImpl
unfolding conn_done
start_path none lost p = (false, record p { state = failed })
start_path (some stream) lost p =
    let started = call (starts_reader stream) (record p { transport_stream = some stream }) in
    (true, record (if lost then conn_done started else started) { state = ready })

unfoldable pub new_path : ℕ → Bool → (ℕ → Option ℕ) → Bool → Bool × PathImpl
new_path id is_client answers lost =
    start_path (try_open max_attempts answers) lost (initial_path id is_client)

-- One round of the health loop, which looks at the clock at the time `now`.
unfoldable pub health_tick : ℕ → PathImpl → PathImpl
health_tick now p =
    let missed : PathImpl = record p {
      pings_sent = suc p.pings_sent;
      missed_pongs = suc p.missed_pongs;
      healthy = if leb missed_pong_threshold (suc p.missed_pongs) then false else p.healthy;
    } in
    let fine : PathImpl = record p {
      pings_sent = suc p.pings_sent;
      missed_pongs = 0;
      healthy = true;
    } in
    if p.is_closed
    then p
    else if (p.last_pong_at == 0) || ltb (health_interval_ms * 2) (now - p.last_pong_at)
    then missed
    else fine

unfoldable pub forget_all : Map ℕ → PathImpl → PathImpl
forget_all [] p = p
forget_all (entry ∷ m) p = forget_all m (forget_stream entry.0 p)

-- The channels of the two maps, which Close takes out of them; those of AcceptStream it closes.
unfoldable pub close_waiters : Map Waiter → Map Waiter
close_waiters [] = []
close_waiters (entry ∷ m) =
    (entry.0, record { is_closed = true; registered = false }) ∷ close_waiters m

unfoldable pub drop_channels : Map ResponseChannel → Map ResponseChannel
drop_channels [] = []
drop_channels (entry ∷ m) = (entry.0, record entry.1 { registered = false }) ∷ drop_channels m

-- Close up to the lock of the transport stream.
unfoldable pub begin_close : PathImpl → PathImpl
unfolding forget_all
begin_close p =
    let q : PathImpl = record p {
      is_closed = true;
      state = closed;
      streams = [];
      accept_stream_waiters = close_waiters p.accept_stream_waiters;
      open_stream_resp_ch = drop_channels p.open_stream_resp_ch;
    } in
    forget_all p.streams q

unfoldable pub finish_close : PathImpl → PathImpl
finish_close p =
    call closes_conn
      (call unregisters (record (close_old p.transport_stream p) { transport_stream = none }))

unfoldable pub close : PathImpl → Ending (Unit {0})
unfolding begin_close
close p =
    let q = begin_close p in
    if p.is_closed
    then returns tt p
    else if p.transport_stream_locked
    then blocks q
    else returns tt (finish_close q)
