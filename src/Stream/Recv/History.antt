-- ===== src/Stream/Recv/History.antt =====
-- stream.go, RecvStream.handleFrame: whole histories of a fresh stream.
use kwik.Prelude.{
  ℕ, suc, ◌+◌, ◌^◌, ◌<◌, ◌≡◌, List, [], ◌∷◌, ◌++◌, Bool, true, false, none, some, length, arith,
}
use kwik.Prelude.Map.{lookup, insert, delete}
use kwik.Protocol.Frame.{StreamFrame}
use kwik.Stream.Recv.{
  RecvStream, new_recv_stream, take_chunk, append_data, set_fin, notify, buffer_chunk, handle_all,
}
use kwik.Stream.Recv.Reorder.{drain_once, deliver, deliver_all, handle_all-deliver_all}

-- A STREAM frame of stream `id`.
abbrev pub chunk : ℕ → ℕ → List ℕ → Bool → StreamFrame
chunk id offset bytes fin = record { stream_id = id; offset = offset; fin = fin; payload = bytes }

module _ (id : ℕ) (a b c : List ℕ) where
  -- The parts of the stream as frames.
  abbrev first : StreamFrame
  first = chunk id 0 a false

  abbrev second : Bool → StreamFrame
  second fin = chunk id (length a) b fin

  abbrev third : StreamFrame
  third = chunk id (length a + length b) c false

  -- A fresh stream that gets two parts of a stream in reverse order, the first of them nonempty,
  -- delivers both, in order.
  pub handle_all_reversed_two :
      0 < length a
      → length a + length b < 2 ^ 64
      → (n : ℕ)
      → (s : RecvStream) × (handle_all
            (suc (suc n))
            (new_recv_stream id)
            (second false ∷ first ∷ [])
          ≡ some s)
        × (s.read_buf ≡ a ++ b)
        × (s.expected_offset ≡ length a + length b)
  unfolding deliver_all deliver drain_once append_data take_chunk set_fin notify buffer_chunk
      new_recv_stream insert lookup delete
  handle_all_reversed_two ha fits n =
      let fs = second false ∷ first ∷ [] in
      (
        deliver_all (new_recv_stream id) fs,
        handle_all-deliver_all n (new_recv_stream id) fs,
        ground arith,
        ground arith,
      )

  -- Of three nonempty parts of a stream that a fresh stream gets in reverse order, the last one is
  -- lost: the first two are delivered, and the third is neither delivered nor buffered any more.
  pub handle_all_reversed_three :
      0 < length a
      → 0 < length b
      → 0 < length c
      → length a + length b + length c < 2 ^ 64
      → (n : ℕ)
      → (s : RecvStream) × (handle_all
            (suc (suc n))
            (new_recv_stream id)
            (third ∷ second false ∷ first ∷ [])
          ≡ some s)
        × (s.read_buf ≡ a ++ b)
        × (s.expected_offset ≡ length a + length b)
        × (lookup (length a + length b) s.buffered ≡ none)
  unfolding deliver_all deliver drain_once append_data take_chunk set_fin notify buffer_chunk
      new_recv_stream insert lookup delete
  handle_all_reversed_three ha hb hc fits n =
      let fs = third ∷ second false ∷ first ∷ [] in
      (
        deliver_all (new_recv_stream id) fs,
        handle_all-deliver_all n (new_recv_stream id) fs,
        ground arith,
        ground arith,
        ground arith,
      )

  -- A fresh stream that gets two parts, the first of them nonempty, and the second with Fin set,
  -- delivers the same data whatever the order in which they arrive, but it notices the end of the
  -- stream only if the second part arrives last.
  pub handle_all_early_fin :
      0 < length a
      → length a + length b < 2 ^ 64
      → (n : ℕ)
      → (in_order early : RecvStream) × (handle_all
            (suc (suc n))
            (new_recv_stream id)
            (first ∷ second true ∷ [])
          ≡ some in_order)
        × (handle_all (suc (suc n)) (new_recv_stream id) (second true ∷ first ∷ []) ≡ some early)
        × (in_order.read_buf ≡ early.read_buf)
        × (in_order.fin_received ≡ true)
        × (early.fin_received ≡ false)
  unfolding deliver_all deliver drain_once append_data take_chunk set_fin notify buffer_chunk
      new_recv_stream insert lookup delete
  handle_all_early_fin ha fits n =
      let start = new_recv_stream id in
      let in_order = first ∷ second true ∷ [] in
      let early = second true ∷ first ∷ [] in
      (
        deliver_all start in_order,
        deliver_all start early,
        handle_all-deliver_all n start in_order,
        handle_all-deliver_all n start early,
        ground arith,
        ground arith,
        ground arith,
      )
