-- ===== src/Streams/StreamImpl.antt =====
-- stream.go: StreamImpl, a stream with its two halves and its paths. `P` is the type of a path
-- object.
use kwik.Prelude.{
  ℕ, List, [], ◌∷◌, Bool, true, false, Option, none, some, ◌==◌, if◌then◌else◌, add64,
}
use kwik.Prelude.Map.{Map, lookup, insert, delete, has}
use kwik.Protocol.Errors.{
  Error, Result, ok, err, path_not_exists, submit_failed, flush_failed, invalid_path_id,
}
use kwik.Stream.Recv
use kwik.Stream.Recv.{RecvStream, new_recv_stream}
use kwik.Stream.Send
use kwik.Stream.Send.{SendStream, new_send_stream, should_flush, has_buffered}
use kwik.Transport.Paths.{choose_primary}

pub record StreamImpl {ℓ} (P : Type ℓ) : Type ℓ where
  pub id : ℕ
  pub remote_stream_id : ℕ
  pub paths : Map P
  -- 0 is no path
  pub primary_path_id : ℕ
  pub write_offset : ℕ
  pub recv : RecvStream
  pub send : SendStream

-- SubmitSendStream of a path: its error, and the sending half that it has taken frames from.
pub record Submission : Type 0 where
  pub failure : Option Error
  pub left : SendStream

abbrev pub flush_failure : Option Error → Option Error
flush_failure none = none
flush_failure (some e) = some (flush_failed e)

module _ {ℓ} {P : Type ℓ} where
  unfoldable pub new_stream : ℕ → StreamImpl P
  new_stream id = record {
    id = id;
    remote_stream_id = 0;
    paths = [];
    primary_path_id = 0;
    write_offset = 0;
    recv = new_recv_stream id;
    send = new_send_stream id;
  }

  -- Write behind its call of SubmitSendStream.
  unfoldable pub finish_write : ℕ → StreamImpl P → Submission → Result ℕ × StreamImpl P
  finish_write n s r = elim r.failure [
    | none ↦ (ok n, record s { send = r.left; write_offset = add64 s.write_offset n })
    | some e ↦ (err (submit_failed e), record s { send = r.left })
  ]

  -- Write with a primary path.
  unfoldable pub write_on :
      (P → SendStream → Submission) → List ℕ → P → StreamImpl P → Result ℕ × StreamImpl P
  unfolding finish_write
  write_on submit p path s =
      let (n, buffered) = Send.write p s.send in
      let unsent : Submission = record { failure = none; left = buffered } in
      finish_write n s (if should_flush n buffered then submit path buffered else unsent)

  unfoldable pub write_bytes :
      (P → SendStream → Submission) → List ℕ → Option P → StreamImpl P → Result ℕ × StreamImpl P
  write_bytes submit p none s = (err (path_not_exists s.primary_path_id), s)
  write_bytes submit p (some path) s = write_on submit p path s

  -- Write
  unfoldable pub write :
      (P → SendStream → Submission) → List ℕ → StreamImpl P → Result ℕ × StreamImpl P
  write submit [] s = (ok 0, s)
  write submit (b ∷ p) s = write_bytes submit (b ∷ p) (lookup s.primary_path_id s.paths) s

  unfoldable pub flush_on :
      (P → SendStream → Submission) → P → StreamImpl P → Option Error × StreamImpl P
  flush_on submit path s =
      let r = submit path s.send in
      if has_buffered s.send
      then (flush_failure r.failure, record s { send = r.left })
      else (none, s)

  unfoldable pub flush_to :
      (P → SendStream → Submission) → Option P → StreamImpl P → Option Error × StreamImpl P
  flush_to submit none s = (some (path_not_exists s.primary_path_id), s)
  flush_to submit (some path) s = flush_on submit path s

  -- Flush
  unfoldable pub flush : (P → SendStream → Submission) → StreamImpl P → Option Error × StreamImpl P
  flush submit s = flush_to submit (lookup s.primary_path_id s.paths) s

  unfoldable pub set_write_offset : ℕ → StreamImpl P → StreamImpl P
  set_write_offset offset s = record s {
    write_offset = offset;
    send = Send.set_write_offset offset s.send;
  }

  unfoldable pub set_read_offset : ℕ → StreamImpl P → StreamImpl P
  set_read_offset offset s = record s { recv = Recv.set_read_offset offset s.recv }

  unfoldable pub set_remote_stream_id : ℕ → StreamImpl P → StreamImpl P
  set_remote_stream_id id s = record s { remote_stream_id = id }

  unfoldable pub set_primary_path : ℕ → StreamImpl P → StreamImpl P
  set_primary_path pid s = record s { primary_path_id = pid }

  -- A path that is new to the stream: the first one becomes the primary path.
  unfoldable pub attach : ℕ → P → StreamImpl P → StreamImpl P
  attach pid path s = record s {
    paths = insert pid path s.paths;
    primary_path_id = if s.primary_path_id == 0 then pid else s.primary_path_id;
  }

  -- AddPath, where `none` is nil; a path comes with its number. The Boolean says whether the packer
  -- of the path's session is asked to register the path.
  unfoldable pub add_path : Option (ℕ × P) → StreamImpl P → Option Error × (Bool × StreamImpl P)
  add_path none s = (some (invalid_path_id 0), (false, s))
  add_path (some entry) s =
      if has entry.0 s.paths then (none, (false, s)) else (none, (true, attach entry.0 entry.1 s))

  -- RemovePath, where the iteration over the paths that are left starts at the place `start`.
  unfoldable pub remove_path : ℕ → ℕ → StreamImpl P → StreamImpl P
  remove_path start pid s =
      let left = delete pid s.paths in
      if has pid s.paths
      then record s {
        paths = left;
        primary_path_id =
            if s.primary_path_id == pid then choose_primary start left else s.primary_path_id;
      }
      else s

  unfoldable pub get_path : ℕ → StreamImpl P → Option P
  get_path pid s = lookup pid s.paths
