-- ===== src/Transport/PathImpl.antt =====
-- internal/transport/path.go: one path, that is one QUIC connection, and the streams on it. What
-- the path asks of other objects is a log of calls; what they answer is an argument. A goroutine
-- that the code starts runs at once here. Times and the counters of the health loop are numbers
-- without a bound, and the calls that wait are two operations, before and behind the waiting.
pub mod ErrorText
pub mod Recovery
pub mod Control
pub mod Lifecycle
pub mod Steps
pub mod Settled
pub mod Quiet
pub mod Failing
pub mod Closing
pub mod Runs
pub mod Deadlock
pub mod Health
pub mod Relays
pub mod Race
pub mod Rendezvous
mod Tests
use kwik.Prelude.{
  ℕ, zero, suc, ◌+◌, List, [], ◌∷◌, ◌++◌, Bool, true, false, Option, none, some, if◌then◌else◌,
  add64,
}
use kwik.Prelude.Map.{Map, lookup, insert, delete, has}
use kwik.Protocol.Errors.{Error, stream_exists, stream_not_exists, other}
use kwik.Protocol.Frame.{Frame, open_stream, AddPathRespFrame, OpenStreamRespFrame, RelayDataFrame}

pub data PathState : Type 0 where
  initializing ready recovering failed closed : PathState

abbrev pub is_ready : PathState → Bool
is_ready ready = true
is_ready initializing = false
is_ready recovering = false
is_ready failed = false
is_ready closed = false

-- What a path asks of its session, of the packer and the multiplexer behind it, and of QUIC.
pub data Call : Type 0 where
  registers unregisters : Call
  submits : Frame → Call
  submits_send_stream : ℕ → Call
  cleans_stream_buffer cancels_frames : ℕ → Call
  -- HandlePathFailure
  reports_failure : Call
  -- OpenPath on an address, with an AddPathResp behind it
  opens_path : List ℕ → Call
  handles_add_path_resp : AddPathRespFrame → Call
  relays : RelayDataFrame → Call
  adds_path_to_stream : ℕ → Call
  -- on a transport stream
  writes : ℕ → List ℕ → Call
  closes_transport_stream starts_reader : ℕ → Call
  closes_conn : Call

-- The channel that OpenStreamSync waits on, which has room for one response, and whether the map
-- of the path still leads to it.
pub record ResponseChannel : Type 0 where
  pub response : Option OpenStreamRespFrame
  pub registered : Bool

-- The channel that AcceptStream waits on.
pub record Waiter : Type 0 where
  pub is_closed : Bool
  pub registered : Bool

-- The write offset of each stream stands for the pathStream. A transport stream is a number.
pub record PathImpl : Type 0 where
  pub id : ℕ
  pub is_client : Bool
  pub streams : Map ℕ
  pub state : PathState
  pub is_closed : Bool
  pub global_write_seq : ℕ
  pub transport_stream : Option ℕ
  -- whether a goroutine that never goes on holds transportStreamMu and recoveryMu
  pub transport_stream_locked : Bool
  pub recovery_locked : Bool
  pub healthy : Bool
  pub pings_sent : ℕ
  pub pongs_recv : ℕ
  pub missed_pongs : ℕ
  pub last_pong_at : ℕ
  pub stream_recovery_attempts : ℕ
  pub fatal_error : Bool
  pub open_stream_resp_ch : Map ResponseChannel
  pub accept_stream_waiters : Map Waiter
  pub calls : List Call

abbrev pub health_interval_ms : ℕ
health_interval_ms = 15000

abbrev pub missed_pong_threshold : ℕ
missed_pong_threshold = 3

abbrev pub max_recovery_attempts : ℕ
max_recovery_attempts = 2

-- How an operation ends: with a value, or never, as it waits for a mutex that nobody releases.
pub data Ending {ℓ} (A : Type ℓ) : Type ℓ where
  returns : A → PathImpl → Ending A
  blocks : PathImpl → Ending A

abbrev pub state_of {ℓ} : {A : Type ℓ} → Ending A → PathImpl
state_of (returns a p) = p
state_of (blocks p) = p

abbrev pub call : Call → PathImpl → PathImpl
call c p = record p { calls = p.calls ++ (c ∷ []) }

-- CleanupStreamBuffer and CancelFramesForStream
abbrev pub forget_stream : ℕ → PathImpl → PathImpl
forget_stream sid p = call (cancels_frames sid) (call (cleans_stream_buffer sid) p)

unfoldable pub remove_stream : ℕ → PathImpl → PathImpl
remove_stream sid p = forget_stream sid (record p { streams = delete sid p.streams })

abbrev pub has_stream : ℕ → PathImpl → Bool
has_stream sid p = has sid p.streams

unfoldable pub close_stream : ℕ → PathImpl → Option Error × PathImpl
unfolding remove_stream
close_stream sid p =
    if has_stream sid p then (none, remove_stream sid p) else (some (stream_not_exists p.id sid), p)

abbrev pub not_ready : Error
not_ready = other 1

-- SubmitSendStream, where `answer` is what the packer's SubmitFromSendStream returns.
unfoldable pub submit_send_stream : Option Error → ℕ → PathImpl → Option Error × PathImpl
submit_send_stream answer sid p =
    if is_ready p.state then (answer, call (submits_send_stream sid) p) else (some not_ready, p)

-- WriteSeq; `none` is the answer `0, false`.
unfoldable pub write_seq : ℕ → PathImpl → Option ℕ × PathImpl
write_seq sid p =
    let seq = add64 p.global_write_seq 1 in
    if is_ready p.state
    then (if has_stream sid p then (some seq, record p { global_write_seq = seq }) else (none, p))
    else (none, p)

unfoldable pub get_write_offset : ℕ → PathImpl → Option ℕ
get_write_offset sid p = lookup sid p.streams

unfoldable pub sync_write_offset : ℕ → ℕ → PathImpl → Bool × PathImpl
sync_write_offset sid offset p =
    if has_stream sid p
    then (true, record p { streams = insert sid offset p.streams })
    else (false, p)

unfoldable pub write_offset_for_stream : ℕ → PathImpl → ℕ
unfolding get_write_offset
write_offset_for_stream sid p = elim (get_write_offset sid p) [ none ↦ 0 | some offset ↦ offset ]

unfoldable pub increment_write_offset : ℕ → ℕ → PathImpl → PathImpl
increment_write_offset sid n p = elim (lookup sid p.streams) [
  | none ↦ p
  | some offset ↦ record p { streams = insert sid (add64 offset n) p.streams }
]

-- OpenStream
unfoldable pub open_stream_now : ℕ → PathImpl → Option Error × PathImpl
open_stream_now sid p =
    if has_stream sid p
    then (some (stream_exists p.id sid), p)
    else (none, call (submits (open_stream sid)) (record p { streams = insert sid 0 p.streams }))
