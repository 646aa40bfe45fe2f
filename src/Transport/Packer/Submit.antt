-- ===== src/Transport/Packer/Submit.antt =====
-- internal/transport/packer.go: what SubmitFrame does to the queue of a path.
use kwik.Prelude.{
  ℕ, ◌+◌, ◌≤◌, ◌<◌, ◌≡◌, refl, ap, ◌∙◌, List, [], ◌∷◌, ◌++◌, ltb, ==_self, length, drop,
  drop-length, arith, All, append-nil, ◌⊎◌, inl, inr, Bool-cases,
}
use kwik.Prelude.Map.{insert, lookup-insert}
use kwik.Protocol.Errors.{Error, Result, ok, err, frame_too_large, map-eq-err, map-eq-ok}
use kwik.Protocol.Frame.{
  Frame, stream, ack, ping, add_path, add_path_resp, relay_data, open_stream, open_stream_resp,
  StreamFrame,
}
use kwik.Transport.Packer.{
  Packer, Call, Write, Submitted, enc_size, add_size, assemble, send_assembled, after_assembly,
  queue_of, submit_frame,
}

add_size-cases :
    (max size : ℕ) (f : Frame)
    → ((e : Error) × (add_size max size f ≡ err e)) ⊎ ((n : ℕ) × (add_size max size f ≡ ok n))
unfolding add_size
add_size-cases max size (stream f) = elim (Bool-cases (ltb max (enc_size f))) [
  | inl big ↦ inl (frame_too_large (enc_size f) max, ground (arith, big))
  | inr fits ↦ elim (Bool-cases (ltb max (size + enc_size f))) [
    | inl full ↦ inr (size, ground (arith, fits, full))
    | inr room ↦ inr (size + enc_size f, ground (arith, fits, room))
  ]
]
add_size-cases max size (ack f) = inr (size + 32, refl)
add_size-cases max size ping = inr (size + 16, refl)
add_size-cases max size (add_path a) = inr (size + 16, refl)
add_size-cases max size (add_path_resp f) = inr (size + 16, refl)
add_size-cases max size (relay_data f) = inr (size + 16, refl)
add_size-cases max size (open_stream i) = inr (size + 16, refl)
add_size-cases max size (open_stream_resp f) = inr (size + 16, refl)

assemble-append_err :
    (max size : ℕ) (xs ys : List Frame) (e : Error)
    → assemble max size xs ≡ err e
    → assemble max size (xs ++ ys) ≡ err e
unfolding assemble
assemble-append_err max size [] ys e h = cc
assemble-append_err max size (f ∷ xs) ys e h = elim (add_size-cases max size f) [
  | inl (e', k) ↦ rw k (rw k at h)
  | inr (n, k) ↦
      rw (k, assemble-append_err max n xs ys e (map-eq-err (◌∷◌ f) (assemble max n xs) (rw k at h)))
]

-- What the loop assembles is the whole queue: the limit never ends a packet.
assemble-eq : (max size : ℕ) (xs ys : List Frame) → assemble max size xs ≡ ok ys → ys ≡ xs
unfolding assemble
assemble-eq max size [] ys h = cc
assemble-eq max size (f ∷ xs) ys h = elim (add_size-cases max size f) [
  | inl (e, k) ↦ cc
  | inr (n, k) ↦
      let (rest, e, shape) = map-eq-ok (◌∷◌ f) (assemble max n xs) {b = ys} (rw k at h) in
      shape ∙ ap (◌∷◌ f) (assemble-eq max n xs rest e)
]

pub queue_of-insert :
    (pid : ℕ) (q : List Frame) (p : Packer)
    → queue_of pid (record p { queues = insert pid q p.queues }) ≡ q
queue_of-insert pid q p = rw (lookup-insert pid pid q p.queues, ==_self pid)

-- The outcomes of several calls of SubmitFrame for one path, and what they have written.
pub record SubmitLog : Type 0 where
  pub results : List (Result (Unit {0}))
  pub writes : List Write
  pub packer : Packer

unfoldable pub submit_all : ℕ → List (Call × Frame) → Packer → SubmitLog
submit_all pid [] p = record { results = []; writes = []; packer = p }
submit_all pid (call ∷ calls) p =
    let s = submit_frame call.0 pid call.1 p in
    let rest = submit_all pid calls s.packer in
    record {
      results = s.result ∷ rest.results;
      writes = s.writes ++ rest.writes;
      packer = rest.packer;
    }

-- Each assembly of the path's queue fails with the error `e`.
abbrev pub IsStuck : ℕ → Error → Packer → Type 0
IsStuck pid e p = assemble p.max_packet_size 0 (queue_of pid p) ≡ err e

record StaysStuck (pid : ℕ) (e : Error) (p : Packer) (s : Submitted) : Type 0 where
  pub result : s.result ≡ err e
  pub writes : s.writes ≡ []
  pub stuck : IsStuck pid e s.packer

submit_frame_failed :
    (c : Call) (pid : ℕ) (f : Frame) (p : Packer) (e : Error)
    → assemble p.max_packet_size 0 (queue_of pid p ++ (f ∷ [])) ≡ err e
    → StaysStuck pid e p (submit_frame c pid f p)
unfolding submit_frame after_assembly
submit_frame_failed c pid f p e h =
    let q = queue_of pid p ++ (f ∷ []) in
    rw h (record { result = refl; writes = refl; stuck = rw (queue_of-insert pid q p) h })

-- A stuck queue stays so, with the new frame behind it.
pub record QueuedBehind (pid : ℕ) (f : Frame) (e : Error) (p : Packer) (s : Submitted)
    : Type 0 where
  pub result : s.result ≡ err e
  pub writes : s.writes ≡ []
  pub stuck : IsStuck pid e s.packer
  pub queue : queue_of pid s.packer ≡ queue_of pid p ++ (f ∷ [])

pub submit_frame-stuck :
    (c : Call) (pid : ℕ) (f : Frame) (p : Packer) (e : Error)
    → IsStuck pid e p
    → QueuedBehind pid f e p (submit_frame c pid f p)
unfolding submit_frame after_assembly
submit_frame-stuck c pid f p e stuck =
    let q = queue_of pid p ++ (f ∷ []) in
    let h = assemble-append_err p.max_packet_size 0 (queue_of pid p) (f ∷ []) e stuck in
    rw h (record {
      result = refl;
      writes = refl;
      stuck = rw (queue_of-insert pid q p) h;
      queue = queue_of-insert pid q p;
    })

submit_all-IsStuck :
    (pid : ℕ) (e : Error) (calls : List (Call × Frame)) (p : Packer)
    → IsStuck pid e p
    → All (λ r. r ≡ err e) (submit_all pid calls p).results × ((submit_all pid calls p).writes ≡ [])
unfolding submit_all
submit_all-IsStuck pid e [] p h = (tt, refl)
submit_all-IsStuck pid e (call ∷ calls) p h =
    let one =
      submit_frame_failed call.0 pid call.1 p e
        (assemble-append_err p.max_packet_size 0 (queue_of pid p) (call.1 ∷ []) e h) in
    let (fail, quiet) =
      submit_all-IsStuck pid e calls (submit_frame call.0 pid call.1 p).packer one.stuck in
    ((one.result, fail), rw (one.writes, quiet))

pub assemble_too_large :
    (max : ℕ) (f : StreamFrame)
    → max < enc_size f
    → assemble max 0 (stream f ∷ []) ≡ err (frame_too_large (enc_size f) max)
unfolding assemble add_size
assemble_too_large max f big = ground arith

-- If a STREAM frame that is too large for a packet is submitted for a path whose queue is empty,
-- then this call and every later one for the path fails with the error about this frame, and
-- writes nothing, whatever frames are submitted: the frame stays at the head of the queue.
pub submit_all_poisoned :
    (pid : ℕ) (c : Call) (f : StreamFrame) (calls : List (Call × Frame)) (p : Packer)
    → queue_of pid p ≡ []
    → p.max_packet_size < enc_size f
    → let log = submit_all pid ((c, stream f) ∷ calls) p in
      All (λ r. r ≡ err (frame_too_large (enc_size f) p.max_packet_size)) log.results
      × (log.writes ≡ [])
unfolding submit_all
submit_all_poisoned pid c f calls p empty big =
    let e = frame_too_large (enc_size f) p.max_packet_size in
    let fails : assemble p.max_packet_size 0 (queue_of pid p ++ (stream f ∷ [])) ≡ err e =
      rw empty (assemble_too_large p.max_packet_size f big) in
    let one = submit_frame_failed c pid (stream f) p e fails in
    let (fail, quiet) =
      submit_all-IsStuck pid e calls (submit_frame c pid (stream f) p).packer one.stuck in
    ((one.result, fail), rw (one.writes, quiet))

-- A frame that passes the check of SubmitFrame's loop.
abbrev pub FitsAlone : ℕ → Frame → Type 0
FitsAlone max (stream f) = enc_size f ≤ max
FitsAlone max _ = Unit

add_size-FitsAlone :
    (max size : ℕ) (f : Frame) → FitsAlone max f → (n : ℕ) × (add_size max size f ≡ ok n)
unfolding add_size
add_size-FitsAlone max size (stream f) h = elim (Bool-cases (ltb max (size + enc_size f))) [
  | inl full ↦ (size, ground (arith, full))
  | inr room ↦ (size + enc_size f, ground (arith, room))
]
add_size-FitsAlone max size (ack f) h = (size + 32, refl)
add_size-FitsAlone max size ping h = (size + 16, refl)
add_size-FitsAlone max size (add_path a) h = (size + 16, refl)
add_size-FitsAlone max size (add_path_resp f) h = (size + 16, refl)
add_size-FitsAlone max size (relay_data f) h = (size + 16, refl)
add_size-FitsAlone max size (open_stream i) h = (size + 16, refl)
add_size-FitsAlone max size (open_stream_resp f) h = (size + 16, refl)

assemble-FitsAlone :
    (max size : ℕ) (fs : List Frame) → All (FitsAlone max) fs → assemble max size fs ≡ ok fs
unfolding assemble
assemble-FitsAlone max size [] h = refl
assemble-FitsAlone max size (f ∷ fs) h =
    let (n, e) = add_size-FitsAlone max size f h.0 in rw (e, assemble-FitsAlone max n fs h.1)

drop_all : (fs : List Frame) → drop (length fs) fs ≡ []
drop_all fs = rw append-nil at (drop-length fs [])

after_assembly_all :
    (c : Call) (pid : ℕ) (q : List Frame) (f : Frame) (p : Packer)
    → let frames = q ++ (f ∷ []) in
      after_assembly c pid frames p (ok frames)
      ≡ send_assembled c pid frames (record p { queues = insert pid [] p.queues })
unfolding after_assembly
after_assembly_all c pid [] f p = refl
after_assembly_all c pid (g ∷ q) f p = rw (drop_all (q ++ (f ∷ [])))

-- SubmitFrame on a queue whose frames fit takes all of them off the queue.
pub submit_frame-send_assembled :
    (c : Call) (pid : ℕ) (f : Frame) (p : Packer)
    → let frames = queue_of pid p ++ (f ∷ []) in
      All (FitsAlone p.max_packet_size) frames
      → submit_frame c pid f p
        ≡ send_assembled c pid frames
            (record p { queues = insert pid [] (insert pid frames p.queues) })
unfolding submit_frame
submit_frame-send_assembled c pid f p h =
    let frames = queue_of pid p ++ (f ∷ []) in
    rw (assemble-FitsAlone p.max_packet_size 0 frames h) (
      after_assembly_all c pid (queue_of pid p) f
        (record p { queues = insert pid frames p.queues }))
