-- ===== src/Transport/PathImpl/Recovery.antt =====
-- internal/transport/path.go: errors of the transport stream, its recovery, and WriteStream.
use kwik.Prelude.{
  ℕ, suc, List, ◌++◌, Bool, true, false, Option, none, some, ltb, leb, if◌then◌else◌, ◌&&◌, length,
  codes,
}
use kwik.Transport.PathImpl.{
  PathImpl, failed, is_ready, Ending, returns, blocks, call, writes, closes_transport_stream,
  starts_reader, reports_failure, max_recovery_attempts,
}
use kwik.Transport.PathImpl.ErrorText.{
  is_fatal_connection_error, is_recoverable_stream_error, has_prefix,
}
use kwik.Transport.Wire.{wire}

abbrev pub close_old : Option ℕ → PathImpl → PathImpl
close_old none p = p
close_old (some stream) p = call (closes_transport_stream stream) p

unfoldable pub close_path_due_to_fatal_error : PathImpl → PathImpl
close_path_due_to_fatal_error p =
    call reports_failure
      (close_old p.transport_stream (record p { is_closed = true; state = failed }))

-- The second half of tryRecoverTransportStream, behind the counter: `opened` is the stream that
-- QUIC opens or accepts, `none` its error.
unfoldable pub reopen : Option ℕ → PathImpl → Bool × PathImpl
reopen none p = (false, record (close_old p.transport_stream p) { fatal_error = true })
reopen (some stream) p = (
  true,
  call (starts_reader stream)
      (record (close_old p.transport_stream p) { transport_stream = some stream }),
)

abbrev pub counted : PathImpl → PathImpl
counted p = record p { stream_recovery_attempts = suc p.stream_recovery_attempts }

-- tryRecoverTransportStream: it locks recoveryMu, and transportStreamMu behind the counter.
unfoldable pub try_recover_transport_stream : Option ℕ → PathImpl → Ending Bool
try_recover_transport_stream opened p =
    let (success, q) = reopen opened (counted p) in
    if p.fatal_error
    then returns false p
    else if p.recovery_locked
    then blocks p
    else if leb max_recovery_attempts p.stream_recovery_attempts
    then returns false (record p { fatal_error = true })
    else if p.transport_stream_locked
    then blocks (record (counted p) { recovery_locked = true })
    else returns success q

abbrev pub recovered_text : List ℕ → List ℕ
recovered_text text = codes "stream recovered, retry needed: " ++ text

-- The text of the error that handleWriteError returns once the recovery has ended.
abbrev pub write_error_text : List ℕ → Bool → List ℕ
write_error_text text true = recovered_text text
write_error_text text false =
    if is_recoverable_stream_error text then codes "stream recovery failed: " ++ text else text

abbrev pub map_ending {ℓ κ} : {A : Type ℓ} {B : Type κ} → (A → B) → Ending A → Ending B
map_ending f (returns a p) = returns (f a) p
map_ending f (blocks p) = blocks p

-- handleWriteError on an error with this text.
unfoldable pub handle_write_error : Option ℕ → List ℕ → PathImpl → Ending (List ℕ)
handle_write_error opened text p =
    if is_fatal_connection_error text
    then returns text (close_path_due_to_fatal_error (record p { fatal_error = true }))
    else map_ending (write_error_text text) (try_recover_transport_stream opened p)

abbrev pub is_eof : List ℕ → Bool
is_eof text = leb (length text) 3 && has_prefix text (codes "EOF")

-- handleReadError: whether the reader goes on.
unfoldable pub handle_read_error : Option ℕ → List ℕ → PathImpl → Ending Bool
handle_read_error opened text p =
    if is_eof text
    then returns false p
    else if is_fatal_connection_error text
    then returns false (close_path_due_to_fatal_error (record p { fatal_error = true }))
    else try_recover_transport_stream opened p

pub data WriteResult : Type 0 where
  written : ℕ → WriteResult
  buffer_too_short : ℕ → WriteResult
  path_not_ready transport_stream_closed : WriteResult
  write_failed : List ℕ → WriteResult

-- The deferred Unlock.
abbrev pub unlock : Ending (List ℕ) → Ending WriteResult
unlock (returns text p) = returns (write_failed text) (record p { transport_stream_locked = false })
unlock (blocks p) = blocks p

-- The write to a transport stream under the lock; `answer` is the text of its error.
unfoldable pub write_locked :
    Option (List ℕ) → Option ℕ → List ℕ → ℕ → PathImpl → Ending WriteResult
write_locked none opened b stream p = returns (written (length b)) (call (writes stream (wire b)) p)
write_locked (some text) opened b stream p = unlock (
    handle_write_error opened text
      (call (writes stream (wire b)) (record p { transport_stream_locked = true })))

abbrev pub write_to : Option (List ℕ) → Option ℕ → List ℕ → Option ℕ → PathImpl → Ending WriteResult
write_to answer opened b none p = returns transport_stream_closed p
write_to answer opened b (some stream) p = write_locked answer opened b stream p

-- WriteStream: `answer` is the error of the write, `opened` the stream that a recovery opens.
unfoldable pub write_stream : Option (List ℕ) → Option ℕ → List ℕ → PathImpl → Ending WriteResult
write_stream answer opened b p =
    if ltb (length b) 4
    then returns (buffer_too_short (length b)) p
    else if is_ready p.state
    then (if p.transport_stream_locked
        then blocks p
        else write_to answer opened b p.transport_stream p)
    else returns path_not_ready p
