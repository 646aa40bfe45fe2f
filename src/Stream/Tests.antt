-- ===== src/Stream/Tests.antt =====
-- The theorems on streams at concrete data.
use kwik.Prelude.{
  ℕ, ◌≡◌, refl, List, [], ◌∷◌, ◌++◌, arith, leb, ◌||◌, concat, some, none, true, false,
}
use kwik.Prelude.Map.{lookup}
use kwik.Protocol.Frame.{StreamFrame}
use kwik.Stream.Recv.{RecvStream, new_recv_stream, handle_frame, handle_all}
use kwik.Stream.Recv.Reorder.{handle_frame_drops_third}
use kwik.Stream.Recv.History.{chunk, handle_all_early_fin}
use kwik.Stream.Recv.Run
use kwik.Stream.Recv.Run.{Event, arrives, reads, FaithfulResult, run-new_recv_stream-IsFaithful}
use kwik.Stream.Send.{should_flush, has_buffered, large_write_threshold}
use kwik.Stream.Send.Account
use kwik.Stream.Send.Account.{
  Op, writes, pops, AccountedTrace, fresh, run-fresh-IsAccounted, should_flush-run,
}
use kwik.Stream.Transfer.{handle_all-run}

-- A stream that has read one byte and holds the two chunks after the next.
abbrev waiting : RecvStream
waiting = record {
  stream_id = 4;
  expected_offset = 1;
  buffered = (3, 12 ∷ []) ∷ (4, 13 ∷ []) ∷ [];
  read_buf = 10 ∷ [];
  fin_received = false;
  notified = false;
  read_active = false;
}

abbrev filler : StreamFrame
filler = chunk 4 1 (11 ∷ 11 ∷ []) false

handle_frame_drops_third_example :
    (s : RecvStream) × (handle_frame 2 waiting filler ≡ some s)
    × (s.read_buf ≡ 10 ∷ 11 ∷ 11 ∷ 12 ∷ [])
    × (s.expected_offset ≡ 4)
    × (lookup 4 s.buffered ≡ none)
unfolding lookup
handle_frame_drops_third_example = handle_frame_drops_third waiting filler (12 ∷ []) refl refl 0

handle_all_early_fin_example :
    let head = chunk 4 0 (7 ∷ []) false in
    let last = chunk 4 1 (8 ∷ []) true in
    (in_order early : RecvStream) × (handle_all 2 (new_recv_stream 4) (head ∷ last ∷ [])
      ≡ some in_order)
    × (handle_all 2 (new_recv_stream 4) (last ∷ head ∷ []) ≡ some early)
    × (in_order.read_buf ≡ early.read_buf)
    × (in_order.fin_received ≡ true)
    × (early.fin_received ≡ false)
handle_all_early_fin_example =
    handle_all_early_fin 4 (7 ∷ []) (8 ∷ []) [] (omega arith) (omega arith) 0

abbrev sent : List ℕ
sent = 7 ∷ 8 ∷ 9 ∷ []

abbrev events : List Event
events =
    arrives (chunk 4 1 (8 ∷ 9 ∷ []) false)
    ∷ reads 5
    ∷ arrives (chunk 4 0 (7 ∷ []) false)
    ∷ reads 2
    ∷ arrives (chunk 4 0 (7 ∷ 8 ∷ []) false)
    ∷ []

run-new_recv_stream-IsFaithful_example :
    FaithfulResult sent (omega arith) (Run.run 2 ([], new_recv_stream 4) events)
run-new_recv_stream-IsFaithful_example =
    run-new_recv_stream-IsFaithful sent (omega arith) 0 4 events
      ((omega arith, refl), (tt, ((omega arith, refl), (tt, ((omega arith, refl), tt)))))

abbrev ops : List Op
ops = writes (1 ∷ 2 ∷ []) ∷ writes (3 ∷ 4 ∷ []) ∷ pops 3 ∷ writes (5 ∷ []) ∷ []

run-fresh-IsAccounted_example : AccountedTrace (Account.run (fresh 4) ops)
run-fresh-IsAccounted_example = run-fresh-IsAccounted 4 ops

should_flush-run_example :
    should_flush 1 (Account.run (fresh 4) ops).state
    ≡ (leb large_write_threshold 1 || has_buffered (Account.run (fresh 4) ops).state)
should_flush-run_example = should_flush-run 4 1 ops

handle_all-run_example :
    let t = Account.run (fresh 4) ops in
    (s : RecvStream) × (handle_all 2 (new_recv_stream 4) t.emitted ≡ some s)
    × (s.read_buf ++ concat t.state.send_buffer ≡ t.written)
    × (s.fin_received ≡ false)
handle_all-run_example = handle_all-run 4 4 ops 0
