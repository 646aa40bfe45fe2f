-- ===== src/Transport/PathImpl/Tests.antt =====
-- The theorems on paths at concrete data.
use kwik.Prelude.{
  ltb, inl, ℕ, zero, suc, ◌≡◌, refl, List, [], ◌∷◌, ◌++◌, true, false, Option, none, some, arith,
  codes, ◌⊎◌,
}
use kwik.Prelude.Map.{lookup}
use kwik.Protocol.Frame.{ping, open_stream}
use kwik.Stream.Recv.{RecvStream, new_recv_stream}
use kwik.Transport.PathImpl.{PathImpl, submits, returns, blocks, state_of}
use kwik.Transport.PathImpl.ErrorText.{is_fatal_connection_error, contains, has_prefix}
use kwik.Transport.PathImpl.Recovery.{write_stream, path_not_ready}
use kwik.Transport.PathImpl.Control.{
  handle_control_frame, begin_open_stream, begin_accept_stream, finish_open_stream,
  finish_accept_stream,
}
use kwik.Transport.PathImpl.Lifecycle.{new_path, start_path, initial_path, close}
use kwik.Transport.PathImpl.Steps
use kwik.Transport.PathImpl.Steps.{
  Op, opens_now, takes_seq, writes_stream, receives, ticks, read_fails, closes,
}
use kwik.Transport.PathImpl.Settled.{IsSettled, conn_closes}
use kwik.Transport.PathImpl.Runs.{run-new_path-IsSettled}
use kwik.Transport.PathImpl.Deadlock.{IsBlocked, write_stream_deadlock}
use kwik.Transport.PathImpl.Health.{tick_all, tick_all-unhealthy}
use kwik.Transport.PathImpl.Race.{Sent, run_two, in_turn, in_step, both, run_two_race}
use kwik.Stream.Recv.Reorder.{deliver_all}
use kwik.Transport.PathImpl.Control.{data_frame}
use kwik.Prelude.{◌+◌}
use kwik.Transport.PathImpl.Rendezvous.{
  Joined, response, Revived, open_stream-accept_stream, finish_accept_stream-close,
}

-- QUIC fails once, and then opens the stream 70.
abbrev answers : ℕ → Option ℕ
answers zero = none
answers (suc n) = some 70

abbrev ops : List Op
ops =
    opens_now 4
    ∷ takes_seq 4
    ∷ receives 100 ping
    ∷ read_fails (some 71) (codes "timeout")
    ∷ writes_stream none none (1 ∷ 2 ∷ 3 ∷ 4 ∷ [])
    ∷ ticks 200
    ∷ closes
    ∷ closes
    ∷ []

run-new_path-IsSettled_example : IsSettled (Steps.run (new_path 1 true answers false).1 ops)
run-new_path-IsSettled_example = run-new_path-IsSettled 1 true answers ops

abbrev ready_path : PathImpl
ready_path = (start_path (some 70) false (initial_path 1 true)).1

abbrev bytes : List ℕ
bytes = 1 ∷ 2 ∷ 3 ∷ 4 ∷ []

write_stream_deadlock_example :
    let e = write_stream (some (codes "timeout")) (some 71) bytes ready_path in
    let q = Steps.run (state_of e) ops in
    IsBlocked e
    × ((write_stream none none bytes q ≡ blocks q)
        ⊎ (write_stream none none bytes q ≡ returns path_not_ready q))
    × (conn_closes q.calls ≡ conn_closes ready_path.calls)
unfolding start_path initial_path is_fatal_connection_error contains has_prefix
write_stream_deadlock_example =
    write_stream_deadlock ready_path bytes (codes "timeout") (some 71) ops none none bytes
      (record {
        in_use = refl;
        connected = (70, refl);
        unlocked = refl;
        idle = refl;
        alive = refl;
        attempts_left = omega arith;
      })
      (omega arith) (omega arith) refl

abbrev rounds : List ℕ
rounds = 22500 ∷ 37500 ∷ 52500 ∷ []

-- No ping has ever come.
tick_all-unhealthy_example :
    let q = tick_all rounds ready_path in
    let r = tick_all (67500 ∷ 82500 ∷ []) (handle_control_frame 60000 ping q) in
    (q.healthy ≡ ltb 3 3) × (r.healthy ≡ true) × (r.missed_pongs ≡ 0)
unfolding start_path initial_path
tick_all-unhealthy_example =
    tick_all-unhealthy rounds (67500 ∷ 82500 ∷ []) ready_path 60000 refl refl
      (inl refl, (inl refl, (inl refl, tt))) (omega arith) (omega arith, (omega arith, tt))

-- A path with the stream 6, whose next byte is the fifth.
abbrev relay_path : PathImpl
relay_path = record ready_path { streams = (6, 4) ∷ [] }

abbrev receiver : RecvStream
receiver = record (new_recv_stream 6) { expected_offset = 4; read_buf = 7 ∷ [] }

run_two_race_example :
    let f = data_frame 6 4 (1 ∷ 2 ∷ []) in
    let g = data_frame 6 (4 + 2) (3 ∷ []) in
    let clash = data_frame 6 4 (3 ∷ []) in
    Sent 6 f g (4 + 2 + 1) relay_path (run_two 6 (1 ∷ 2 ∷ []) (3 ∷ []) in_turn (both relay_path))
    × ((deliver_all receiver (f ∷ g ∷ [])).read_buf ≡ receiver.read_buf ++ (1 ∷ 2 ∷ 3 ∷ []))
    × Sent 6 f clash
        (4 + 2 + 1)
        relay_path
        (run_two 6 (1 ∷ 2 ∷ []) (3 ∷ []) in_step (both relay_path))
    × ((deliver_all receiver (f ∷ clash ∷ [])).read_buf ≡ receiver.read_buf ++ (1 ∷ 2 ∷ []))
    × ((deliver_all receiver (f ∷ clash ∷ [])).expected_offset + 1 ≡ 4 + 2 + 1)
unfolding lookup new_recv_stream
run_two_race_example =
    run_two_race 6 4 (1 ∷ 2 ∷ []) (3 ∷ []) relay_path receiver refl
      (record { here = refl; nothing = refl }) (omega arith) (omega arith)

open_stream-accept_stream_example :
    let begun = (begin_open_stream none 4 ready_path).1 in
    let asked = handle_control_frame 100 (open_stream 4) in
    (begun.calls ≡ ready_path.calls ++ (submits (open_stream 4) ∷ []))
    × ((asked ready_path).calls ≡ ready_path.calls ++ (submits (response 4 true) ∷ []))
    × Joined 4 (finish_accept_stream false 4 (asked (begin_accept_stream 4 ready_path).1))
    × Joined 4 (finish_accept_stream false 4 (begin_accept_stream 4 (asked ready_path)).1)
    × Joined 4 (finish_open_stream false 4 (handle_control_frame 100 (response 4 true) begun))
unfolding start_path initial_path lookup
open_stream-accept_stream_example = open_stream-accept_stream 100 4 ready_path ready_path refl refl

finish_accept_stream-close_example :
    Revived 4 (finish_accept_stream false 4 (state_of (close (begin_accept_stream 4 ready_path).1)))
unfolding start_path initial_path lookup
finish_accept_stream-close_example = finish_accept_stream-close 4 ready_path refl refl refl
