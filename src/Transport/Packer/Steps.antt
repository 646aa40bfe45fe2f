-- ===== src/Transport/Packer/Steps.antt =====
-- internal/transport/packer.go: any sequence of a Packer's operations.
use kwik.Prelude.{ℕ, suc, ◌-◌, ◌^◌, ◌<◌, ◌≡◌, refl, List, [], ◌∷◌, Option, none, some, All}
use kwik.Protocol.Errors.{Error}
use kwik.Protocol.Frame.{AckRange, Frame}
use kwik.Transport.Packer.{Packer, Call, submit_frame, new_packer}
use kwik.Transport.Packer.Registry.{
  on_ack_path, register_path, unregister_path, cancel_frames_for_stream,
}
use kwik.Transport.Packer.Retransmit.{Task, collect_path, finish_task}
use kwik.Transport.Packer.Flush.{Provider, submit_from_send_stream, flush_stream}
use kwik.Transport.Packer.Rounds.{
  cancel_frames_for_stream-IsSound, collect_path-IsSound, finish_task-IsSound,
}
use kwik.Transport.Packer.Operations.{
  submit_from_send_stream-IsSound, on_ack_path-IsSound, register_path-IsSound,
  unregister_path-IsSound, flush_stream-IsSound,
}
use kwik.Transport.Packer.Invariant.{IsSound, submit_frame-IsSound}

-- What can happen to a Packer.
pub data Step : Type 0 where
  submits : Call → ℕ → Frame → Step
  submits_stream : Call → ℕ → ℕ → Provider → Step
  flushes : Call → ℕ → ℕ → Provider → Step
  acked : ℕ → List AckRange → Step
  registers unregisters cancels : ℕ → Step
  collects : (ℕ → ℕ) → ℕ → Step
  finishes : ℕ → ℕ → Option Error → Task → Step

-- A step, with the fuel of OnAck's loops.
unfoldable pub step : ℕ → Packer → Step → Option Packer
step fuel p (submits c pid f) = some (submit_frame c pid f p).packer
step fuel p (submits_stream c pid sid src) = some (submit_from_send_stream c pid sid src p).0.packer
step fuel p (flushes c pid sid src) = some (flush_stream c pid sid src p).1.0
step fuel p (acked pid ranges) = on_ack_path fuel pid ranges p
step fuel p (registers pid) = some (register_path pid p)
step fuel p (unregisters pid) = some (unregister_path pid p)
step fuel p (cancels sid) = some (cancel_frames_for_stream sid p)
step fuel p (collects clock pid) = some (collect_path clock pid p).1
step fuel p (finishes now nanos reply t) = some (finish_task now nanos reply t p)

unfoldable pub run : ℕ → Packer → List Step → Option Packer
run fuel p [] = some p
run fuel p (s ∷ ss) = elim (step fuel p s) [ none ↦ none | some p' ↦ run fuel p' ss ]

-- The ranges that are acknowledged end below the fuel and below the largest uint64.
abbrev pub IsBounded : ℕ → Step → Type 0
IsBounded fuel (acked pid ranges) =
    All (λ r. r.largest < 2 ^ 64 - 1) ranges × All (λ r. r.largest < fuel) ranges
IsBounded fuel _ = Unit

-- The steps have a result, and it is sound.
pub record SoundResult (result : Option Packer) : Type 0 where
  pub after : Packer
  pub returned : result ≡ some after
  pub sound : IsSound after

step-IsSound :
    (fuel : ℕ) (p : Packer) (s : Step)
    → IsBounded fuel s
    → IsSound p
    → SoundResult (step (suc fuel) p s)
unfolding step
step-IsSound fuel p (submits c pid f) h v = record {
  after = _;
  returned = refl;
  sound = submit_frame-IsSound c pid f p v;
}
step-IsSound fuel p (submits_stream c pid sid src) h v = record {
  after = _;
  returned = refl;
  sound = submit_from_send_stream-IsSound c pid sid src p v;
}
step-IsSound fuel p (flushes c pid sid src) h v = record {
  after = _;
  returned = refl;
  sound = flush_stream-IsSound c pid sid src p v;
}
step-IsSound fuel p (acked pid ranges) h v =
    let (p', e, sound) = on_ack_path-IsSound fuel pid ranges p h.0 h.1 v in
    record { after = p'; returned = e; sound = sound }
step-IsSound fuel p (registers pid) h v = record {
  after = _;
  returned = refl;
  sound = register_path-IsSound pid p v;
}
step-IsSound fuel p (unregisters pid) h v = record {
  after = _;
  returned = refl;
  sound = unregister_path-IsSound pid p v;
}
step-IsSound fuel p (cancels sid) h v = record {
  after = _;
  returned = refl;
  sound = cancel_frames_for_stream-IsSound sid p v;
}
step-IsSound fuel p (collects clock pid) h v = record {
  after = _;
  returned = refl;
  sound = collect_path-IsSound clock pid p v;
}
step-IsSound fuel p (finishes now nanos reply t) h v = record {
  after = _;
  returned = refl;
  sound = finish_task-IsSound now nanos reply t p v;
}

run-IsSound :
    (fuel : ℕ) (p : Packer) (ss : List Step)
    → All (IsBounded fuel) ss
    → IsSound p
    → SoundResult (run (suc fuel) p ss)
unfolding run
run-IsSound fuel p [] h v = record { after = p; returned = refl; sound = v }
run-IsSound fuel p (s ∷ ss) h v =
    let one = step-IsSound fuel p s h.0 v in
    rw (one.returned, run) (run-IsSound fuel one.after ss h.1 one.sound)

-- After any sequence of operations of a new Packer, every pending packet holds the bytes of a
-- packet with the number under which it is kept, is no larger than the maximum, and has been sent
-- once at least and twelve times at most, and no packet was ever counted as sent; if the
-- acknowledged ranges end below the largest uint64, then the operations end.
pub run-new_packer-IsSound :
    (fuel max_packet_size : ℕ) (ss : List Step)
    → All (IsBounded fuel) ss
    → SoundResult (run (suc fuel) (new_packer max_packet_size) ss)
unfolding new_packer
run-new_packer-IsSound fuel max_packet_size ss h =
    run-IsSound fuel (new_packer max_packet_size) ss h (record { packets = tt; unsent = refl })
