-- ===== src/Transport/Reception/Tests.antt =====
-- multiplexer.go, ReceptionBuffer: the theorem at concrete data.
use kwik.Prelude.{ℕ, List, [], ◌∷◌, arith, refl, false}
use kwik.Protocol.Frame.{StreamFrame}
use kwik.Transport.Reception.{new_reception_buffer}
use kwik.Transport.Reception.Ordered
use kwik.Transport.Reception.Ordered.{
  Event, pushes, pops, OrderedResult, run-new_reception_buffer-IsOrdered,
}

abbrev piece : ℕ → List ℕ → StreamFrame
piece offset bytes = record { stream_id = 4; offset = offset; fin = false; payload = bytes }

abbrev sent : List ℕ
sent = 7 ∷ 8 ∷ 9 ∷ []

abbrev events : List Event
events =
    pushes (piece 2 (9 ∷ []))
    ∷ pops
    ∷ pushes (piece 1 (8 ∷ []))
    ∷ pushes (piece 0 (7 ∷ []))
    ∷ pushes (piece 1 (8 ∷ 9 ∷ []))
    ∷ pops
    ∷ []

run-new_reception_buffer-IsOrdered_example :
    OrderedResult sent (omega arith) (Ordered.run ([], new_reception_buffer 4) events)
run-new_reception_buffer-IsOrdered_example =
    run-new_reception_buffer-IsOrdered sent (omega arith) 4 events (
      (omega arith, refl),
      (tt, ((omega arith, refl), ((omega arith, refl), ((omega arith, refl), (tt, tt))))),
    )
