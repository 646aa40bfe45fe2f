-- ===== src/Streams/Writes.antt =====
-- stream.go: what Write does when the path submits, and when it refuses to.
use kwik.Prelude.{
  ℕ, zero, suc, ◌≡◌, refl, sym, ap, ◌∙◌, List, [], ◌∷◌, ◌++◌, true, none, some, arith, if_true,
  length, concat, replicate, append_assoc, append-nil, concat-append,
}
use kwik.Prelude.Map.{lookup}
use kwik.Protocol.Errors.{submit_failed, Error, Result, err}
use kwik.Stream.Send
use kwik.Stream.Send.{
  SendStream, should_flush, large_write_threshold, flush_threshold_bytes, flush_threshold_frames,
  buffered_bytes,
}
use kwik.Streams.StreamImpl.{StreamImpl, Submission, write, write_bytes, write_on, finish_write}

-- A stream that has just been written to is flushed, whatever the thresholds say.
should_flush-write :
    (n : ℕ) (p : List ℕ) (s : SendStream) → should_flush n (Send.write p s).1 ≡ true
unfolding should_flush Send.write
should_flush-write n p s = ground arith

concat-write :
    (p : List ℕ) (s : SendStream)
    → concat (Send.write p s).1.send_buffer ≡ concat s.send_buffer ++ p
unfolding Send.write
concat-write p s = rw (concat-append s.send_buffer (p ∷ []), append-nil) refl

module _ {ℓ} {P : Type ℓ} where
  -- Every write of data to a stream with a primary path calls SubmitSendStream of this path on the
  -- bytes that it has just buffered; the thresholds for batching are without effect.
  pub write_on-submit :
      (submit : P → SendStream → Submission) (p : List ℕ) (path : P) (s : StreamImpl P)
      → write_on submit p path s ≡ finish_write (length p) s (submit path (Send.write p s.send).1)
  unfolding write_on Send.write
  write_on-submit submit p path s = ap (finish_write (length p) s) (
      if_true (should_flush (length p) (Send.write p s.send).1)
        (submit path (Send.write p s.send).1)
        (record { failure = none; left = (Send.write p s.send).1 })
        (should_flush-write (length p) p s.send))

  -- The path refuses to submit, with the error `e`, and leaves the stream alone.
  abbrev pub Refuses : (P → SendStream → Submission) → P → Error → Type 0
  Refuses submit path e = (s : SendStream) → submit path s ≡ record { failure = some e; left = s }

  -- The write of `p` is tried `n` times, whatever it answers.
  unfoldable pub try_writes :
      (P → SendStream → Submission) → List ℕ → ℕ → StreamImpl P → StreamImpl P
  try_writes submit p zero s = s
  try_writes submit p (suc n) s = try_writes submit p n (write submit p s).1

  -- A write that fails.
  record Failed (e : Error) (p : List ℕ) (s : StreamImpl P) (r : Result ℕ × StreamImpl P)
      : Type ℓ where
    result : r.0 ≡ err (submit_failed e)
    state : r.1 ≡ record s { send = (Send.write p s.send).1 }

  write-Failed :
      (submit : P → SendStream → Submission) (b : ℕ) (p : List ℕ) (path : P) (e : Error)
      (s : StreamImpl P)
      → lookup s.primary_path_id s.paths ≡ some path
      → Refuses submit path e
      → Failed e (b ∷ p) s (write submit (b ∷ p) s)
  unfolding write write_bytes finish_write
  write-Failed submit b p path e s there refuses =
      let submitted : write submit (b ∷ p) s
          ≡ finish_write (length (b ∷ p)) s (submit path (Send.write (b ∷ p) s.send).1) =
        rw (there, write_bytes) (write_on-submit submit (b ∷ p) path s) in
      let all : write submit (b ∷ p) s
          ≡ (err (submit_failed e), record s { send = (Send.write (b ∷ p) s.send).1 }) =
        submitted ∙ ap (finish_write (length (b ∷ p)) s) (refuses (Send.write (b ∷ p) s.send).1) in
      record { result = ap (λ r. r.0) all; state = ap (λ r. r.1) all }

  -- What the attempts leave behind.
  record Repeated (p : List ℕ) (n : ℕ) (s t : StreamImpl P) : Type ℓ where
    buffered : concat t.send.send_buffer ≡ concat s.send.send_buffer ++ concat (replicate n p)
    offset : t.write_offset ≡ s.write_offset

  try_writes-Repeated :
      (submit : P → SendStream → Submission) (b : ℕ) (p : List ℕ) (path : P) (e : Error) (n : ℕ)
      (s : StreamImpl P)
      → lookup s.primary_path_id s.paths ≡ some path
      → Refuses submit path e
      → Repeated (b ∷ p) n s (try_writes submit (b ∷ p) n s)
  unfolding try_writes
  try_writes-Repeated submit b p path e zero s there refuses = record {
    buffered = sym (append-nil (concat s.send.send_buffer));
    offset = refl;
  }
  try_writes-Repeated submit b p path e (suc n) s there refuses =
      let one = write-Failed submit b p path e s there refuses in
      let t : StreamImpl P = record s { send = (Send.write (b ∷ p) s.send).1 } in
      let rest : Repeated (b ∷ p) n t (try_writes submit (b ∷ p) n t) =
        try_writes-Repeated submit b p path e n t there refuses in
      let same : try_writes submit (b ∷ p) n (write submit (b ∷ p) s).1
          ≡ try_writes submit (b ∷ p) n t =
        ap (try_writes submit (b ∷ p) n) one.state in
      record {
        buffered =
            ap (λ x. concat x.send.send_buffer) same
            ∙ rest.buffered
            ∙ ap (λ x. x ++ concat (replicate n (b ∷ p))) (concat-write (b ∷ p) s.send)
            ∙ append_assoc (concat s.send.send_buffer) (b ∷ p) (concat (replicate n (b ∷ p)));
        offset = ap (λ x. x.write_offset) same ∙ rest.offset;
      }

  -- A write of data whose primary path refuses to submit returns the error of the path, in one of its own, and counts no
  -- byte as written, yet the bytes stay buffered: when it is tried `n` times, the sending half has
  -- the data `n` times behind what it had, and the write offset of the stream is what it was.
  pub write_refused :
      (submit : P → SendStream → Submission) (b : ℕ) (p : List ℕ) (path : P) (e : Error) (n : ℕ)
      (s : StreamImpl P)
      → lookup s.primary_path_id s.paths ≡ some path
      → Refuses submit path e
      → let t = try_writes submit (b ∷ p) n s in
        ((write submit (b ∷ p) s).0 ≡ err (submit_failed e))
        × (concat t.send.send_buffer ≡ concat s.send.send_buffer ++ concat (replicate n (b ∷ p)))
        × (t.write_offset ≡ s.write_offset)
  write_refused submit b p path e n s there refuses =
      let r = try_writes-Repeated submit b p path e n s there refuses in
      ((write-Failed submit b p path e s there refuses).result, r.buffered, r.offset)
