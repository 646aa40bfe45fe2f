-- ===== src/Transport/Relay.antt =====
-- internal/transport/relay.go: data that is sent to another peer through the path of a relay.
mod Tests
use kwik.Prelude.{
  ℕ, zero, suc, ◌≡◌, refl, sym, ap, ◌∙◌, List, [], ◌∷◌, ◌++◌, append_assoc, Bool, true, false,
  Option, none, some, if◌then◌else◌, length,
}
use kwik.Protocol.Errors.{Error, Result, ok, err, panic, other, ◌>>=◌}
use kwik.Protocol.Frame.{Frame, RelayDataFrame, relay_data}
use kwik.Transport.Packer.{Packer, Call, Write, Submitted, submit_frame, queue_of}
use kwik.Transport.Packer.Submit.{IsStuck, QueuedBehind, submit_frame-stuck}

-- What a relay sees of its path: its number in the packer, and whether its session is one of this
-- package, which has a packer.
pub record Route : Type 0 where
  pub id : ℕ
  pub has_packer : Bool

-- The path is `none` where it is nil.
pub record Relay : Type 0 where
  pub address : List ℕ
  pub path_id : ℕ
  pub active : Bool
  pub path : Option Route

unfoldable pub new_relay : Option Route → List ℕ → ℕ → Relay
new_relay path address path_id = record {
  address = address;
  path_id = path_id;
  active = true;
  path = path;
}

-- fmt.Errorf in SendRawData: the relay is not active, its path is not available, and the path has
-- no packer. The text that is put before the last error of SubmitFrame is left out.
abbrev pub not_active : Error
not_active = other 5

abbrev pub no_relay_path : Error
no_relay_path = other 6

abbrev pub no_packer : Error
no_packer = other 7

abbrev pub refused : Error → Packer → Submitted
refused e p = record { result = err e; packer = p; writes = [] }

-- One attempt of the loop.
unfoldable pub attempt : Call → Route → Frame → Packer → Submitted
attempt c route f p = if route.has_packer then submit_frame c route.id f p else refused no_packer p

-- Another attempt follows one that has failed.
abbrev pub after_attempt : Result (Unit {0}) → Submitted → Submitted → Submitted
after_attempt (ok u) s rest = s
after_attempt panic s rest = s
after_attempt (err e) s rest = record {
  result = rest.result;
  packer = rest.packer;
  writes = s.writes ++ rest.writes;
}

-- The loop of SendRawData: an attempt with `left` more behind it, and the surroundings of each.
unfoldable pub attempts : ℕ → (ℕ → Call) → Route → Frame → Packer → Submitted
attempts zero calls route f p = attempt (calls 0) route f p
attempts (suc left) calls route f p =
    let s = attempt (calls 0) route f p in
    let rest = attempts left (λ i. calls (suc i)) route f s.packer in after_attempt s.result s rest

pub record Relayed : Type 0 where
  pub result : Result ℕ
  pub packer : Packer
  pub writes : List Write

-- The length of the data is returned where the last attempt has no error.
abbrev pub finish : List ℕ → Submitted → Relayed
finish bytes s = record {
  result = s.result >>= λ done. ok (length bytes);
  packer = s.packer;
  writes = s.writes;
}

abbrev pub raw_frame : List ℕ → ℕ → Relay → Frame
raw_frame bytes sid r =
    relay_data (record { relay_path_id = r.path_id; dest_stream_id = sid; raw_data = bytes })

unfoldable pub send_on : (ℕ → Call) → Frame → Option Route → Packer → Submitted
send_on calls f none p = refused no_relay_path p
send_on calls f (some route) p = attempts 2 calls route f p

-- SendRawData, with the packer of the session of the path.
unfoldable pub send_raw_data : (ℕ → Call) → List ℕ → ℕ → Relay → Packer → Relayed
send_raw_data calls bytes sid r p =
    finish bytes
      (if r.active then send_on calls (raw_frame bytes sid r) r.path p else refused not_active p)

-- `n` copies of a frame.
unfoldable pub copies : ℕ → Frame → List Frame
copies zero f = []
copies (suc n) f = f ∷ copies n f

after_attempt-err :
    (r : Result (Unit {0})) (s rest : Submitted) (e : Error)
    → r ≡ err e
    → after_attempt r s rest ≡ after_attempt (err e) s rest
after_attempt-err r s rest e h = ap (λ r. after_attempt r s rest) h

record CopiesBehind (n pid : ℕ) (f : Frame) (e : Error) (p : Packer) (s : Submitted) : Type 0 where
  pub result : s.result ≡ err e
  pub writes : s.writes ≡ []
  pub queue : queue_of pid s.packer ≡ queue_of pid p ++ copies n f

attempt-IsStuck :
    (c : Call) (route : Route) (f : Frame) (p : Packer) (e : Error)
    → route.has_packer ≡ true
    → IsStuck route.id e p
    → QueuedBehind route.id f e p (attempt c route f p)
unfolding attempt
attempt-IsStuck c route f p e packs stuck = rw packs (submit_frame-stuck c route.id f p e stuck)

attempts-IsStuck :
    (left : ℕ) (calls : ℕ → Call) (route : Route) (f : Frame) (p : Packer) (e : Error)
    → route.has_packer ≡ true
    → IsStuck route.id e p
    → CopiesBehind (suc left) route.id f e p (attempts left calls route f p)
unfolding attempts copies
attempts-IsStuck zero calls route f p e packs stuck =
    let one = attempt-IsStuck (calls 0) route f p e packs stuck in
    record { result = one.result; writes = one.writes; queue = one.queue }
attempts-IsStuck (suc left) calls route f p e packs stuck =
    let one = attempt-IsStuck (calls 0) route f p e packs stuck in
    let s = attempt (calls 0) route f p in
    let later : ℕ → Call = λ i. calls (suc i) in
    let more = attempts-IsStuck left later route f s.packer e packs one.stuck in
    let rest = attempts left later route f s.packer in
    rw (after_attempt-err s.result s rest e one.result) (record {
      result = more.result;
      writes = rw (one.writes, more.writes);
      queue =
          more.queue
          ∙ ap (λ q. q ++ copies (suc left) f) one.queue
          ∙ append_assoc (queue_of route.id p) (f ∷ []) (copies (suc left) f);
    })

-- Let the queue of the path of an active relay be stuck at a frame, so that its assembly fails.
-- Then SendRawData fails with the same error and writes nothing, and leaves three copies of its
-- frame in the queue, one for each attempt.
pub send_raw_data-IsStuck :
    (calls : ℕ → Call) (bytes : List ℕ) (sid : ℕ) (route : Route) (r : Relay) (p : Packer)
    (e : Error)
    → r.active ≡ true
    → r.path ≡ some route
    → route.has_packer ≡ true
    → IsStuck route.id e p
    → let s = send_raw_data calls bytes sid r p in
      (s.result ≡ err e)
      × (s.writes ≡ [])
      × (queue_of route.id s.packer ≡ queue_of route.id p ++ copies 3 (raw_frame bytes sid r))
unfolding send_raw_data send_on
send_raw_data-IsStuck calls bytes sid route r p e active there packs stuck =
    let all = attempts-IsStuck 2 calls route (raw_frame bytes sid r) p e packs stuck in
    rw (active, there) (ap (λ m. m >>= λ done. ok (length bytes)) all.result, all.writes, all.queue)
