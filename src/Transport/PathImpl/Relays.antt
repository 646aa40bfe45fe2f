-- ===== src/Transport/PathImpl/Relays.antt =====
-- Data that one path relays to a stream of another path, and the stream that it makes there.
use kwik.Prelude.{
  ℕ, suc, ◌≡◌, ◌≢◌, refl, sym, ap, ◌∙◌, List, [], ◌∷◌, ◌++◌, append_assoc, append-nil, Option, none,
  some, length, add64, arith, ==_self, concat, map, ◌==◌, if_true, if_false,
}
use kwik.Prelude.Map.{lookup, lookup-insert}
use kwik.Protocol.Frame.{StreamFrame, RelayDataFrame, stream, open_stream}
use kwik.Stream.Recv.{RecvStream, new_recv_stream, handle_all}
use kwik.Stream.Send.Pop.{payloads, AreConsecutive}
use kwik.Stream.Transfer.{handle_all-AreConsecutive}
use kwik.Transport.PathImpl.{
  PathImpl, Call, submits, adds_path_to_stream, has_stream, increment_write_offset,
  write_offset_for_stream, get_write_offset, open_stream_now,
}
use kwik.Transport.PathImpl.Control.{handle_relay_data_frame, relay_on, ensure_stream, data_frame}

-- The RelayData frames, in the order in which they are handled.
unfoldable relay_all : List RelayDataFrame → Option PathImpl → Option PathImpl
relay_all [] p = p
relay_all (f ∷ fs) p = relay_all fs (handle_relay_data_frame f p)

-- What is sent through the path `via` to the stream `sid` there.
abbrev relay_frames : ℕ → ℕ → List (List ℕ) → List RelayDataFrame
relay_frames via sid [] = []
relay_frames via sid (b ∷ bs) =
    record { relay_path_id = via; dest_stream_id = sid; raw_data = b } ∷ relay_frames via sid bs

-- The pieces as frames of one stream, one behind the other.
unfoldable placed : ℕ → ℕ → List (List ℕ) → List StreamFrame
placed sid offset [] = []
placed sid offset (b ∷ bs) = data_frame sid offset b ∷ placed sid (add64 offset (length b)) bs

abbrev submissions : List StreamFrame → List Call
submissions = map (λ f. submits (stream f))

placed-AreConsecutive :
    (sid offset : ℕ) (bs : List (List ℕ)) → AreConsecutive offset (placed sid offset bs)
unfolding placed
placed-AreConsecutive sid offset [] = tt
placed-AreConsecutive sid offset (b ∷ bs) =
    (refl, placed-AreConsecutive sid (add64 offset (length b)) bs)

payloads-placed :
    (sid offset : ℕ) (bs : List (List ℕ)) → payloads (placed sid offset bs) ≡ concat bs
unfolding placed
payloads-placed sid offset [] = refl
payloads-placed sid offset (b ∷ bs) = ap (◌++◌ b) (payloads-placed sid (add64 offset (length b)) bs)

-- One piece to a stream that the path has, with its write offset.
pub record Relayed (sid offset : ℕ) (b : List ℕ) (p q : PathImpl) : Type 0 where
  pub log : q.calls ≡ p.calls ++ (submits (stream (data_frame sid offset b)) ∷ [])
  pub place : lookup sid q.streams ≡ some (add64 offset (length b))

pub relay_on-Relayed :
    (sid offset : ℕ) (b : List ℕ) (p : PathImpl)
    → lookup sid p.streams ≡ some offset
    → Relayed sid offset b p (relay_on sid b p)
unfolding relay_on increment_write_offset write_offset_for_stream get_write_offset
relay_on-Relayed sid offset b p h =
    rw (h, relay_on, increment_write_offset, write_offset_for_stream, get_write_offset)
      (record {
        log = refl;
        place = rw (lookup-insert sid sid (add64 offset (length b)) p.streams, ==_self sid) refl;
      })

ensure_stream-has :
    (sid offset : ℕ) (p : PathImpl) → lookup sid p.streams ≡ some offset → ensure_stream sid p ≡ p
unfolding ensure_stream
ensure_stream-has sid offset p h = if_true (has_stream sid p) _ _ (rw h refl)

ensure_stream-lacks :
    (sid : ℕ) (p : PathImpl)
    → lookup sid p.streams ≡ none
    → let q = ensure_stream sid p in
      (q.calls ≡ p.calls ++ (submits (open_stream sid) ∷ adds_path_to_stream sid ∷ []))
      × (lookup sid q.streams ≡ some 0)
unfolding ensure_stream open_stream_now
ensure_stream-lacks sid p h =
    rw (h, ensure_stream, open_stream_now)
      (
        append_assoc p.calls (submits (open_stream sid) ∷ []) (adds_path_to_stream sid ∷ []),
        rw (lookup-insert sid sid 0 p.streams, ==_self sid) refl,
      )

-- What a relay path has been asked for since, and by whom it is reached.
record RelayedAll (start : List Call) (calls : List Call) (end : Option PathImpl) : Type 0 where
  relay : PathImpl
  kept : end ≡ some relay
  log : relay.calls ≡ start ++ calls

step-handle_relay_data_frame :
    (via sid : ℕ) (b : List ℕ) (p : PathImpl)
    → sid ≢ 0
    → handle_relay_data_frame
        (record { relay_path_id = via; dest_stream_id = sid; raw_data = b })
        (some p)
      ≡ some (relay_on sid b (ensure_stream sid p))
unfolding handle_relay_data_frame
step-handle_relay_data_frame via sid b p some_stream =
    if_false (sid == 0) _ _ (ground (arith, some_stream))

relay_all-placed :
    (via sid offset : ℕ) (bs : List (List ℕ)) (p : PathImpl)
    → sid ≢ 0
    → lookup sid p.streams ≡ some offset
    → RelayedAll p.calls
        (submissions (placed sid offset bs))
        (relay_all (relay_frames via sid bs) (some p))
unfolding relay_all placed
relay_all-placed via sid offset [] p some_stream h = record {
  relay = p;
  kept = refl;
  log = sym (append-nil p.calls);
}
relay_all-placed via sid offset (b ∷ bs) p some_stream h =
    let one : Relayed sid offset b p (relay_on sid b p) = relay_on-Relayed sid offset b p h in
    let rest : RelayedAll (relay_on sid b p).calls
        (submissions (placed sid (add64 offset (length b)) bs))
        (relay_all (relay_frames via sid bs) (some (relay_on sid b p))) =
      relay_all-placed via sid (add64 offset (length b)) bs (relay_on sid b p) some_stream
        one.place in
    record {
      relay = rest.relay;
      kept =
          ap (relay_all (relay_frames via sid bs)) (
            step-handle_relay_data_frame via sid b p some_stream
            ∙ ap (λ x. some (relay_on sid b x)) (ensure_stream-has sid offset p h))
          ∙ rest.kept;
      log =
          rest.log
          ∙ ap (λ x. x ++ submissions (placed sid (add64 offset (length b)) bs)) one.log
          ∙ append_assoc p.calls _ _;
    }

-- The first frame makes the stream, whether or not it is there.
relay_all-ensure_stream :
    (via sid : ℕ) (b : List ℕ) (bs : List (List ℕ)) (p : PathImpl)
    → sid ≢ 0
    → lookup sid (ensure_stream sid p).streams ≡ some 0
    → relay_all (relay_frames via sid (b ∷ bs)) (some p)
      ≡ relay_all (relay_frames via sid (b ∷ bs)) (some (ensure_stream sid p))
unfolding relay_all
relay_all-ensure_stream via sid b bs p some_stream h =
    let q : PathImpl = ensure_stream sid p in
    ap (relay_all (relay_frames via sid bs)) (
      step-handle_relay_data_frame via sid b p some_stream
      ∙ sym (
          step-handle_relay_data_frame via sid b q some_stream
          ∙ ap (λ x. some (relay_on sid b x)) (ensure_stream-has sid 0 q h)))

-- Pieces that are relayed one after the other, with no goroutine in between, to a stream other than 0, which the relay path lacks,
-- open it there, attach the path to it, and are submitted as stream frames behind each other; a new
-- receiving stream that is given these frames in order has exactly the pieces to read.
relay_all-handle_all :
    (via sid : ℕ) (b : List ℕ) (bs : List (List ℕ)) (p : PathImpl) (to n : ℕ)
    → sid ≢ 0
    → lookup sid p.streams ≡ none
    → let fs = placed sid 0 (b ∷ bs) in
      ((q : PathImpl) × (relay_all (relay_frames via sid (b ∷ bs)) (some p) ≡ some q)
        × (q.calls
            ≡ p.calls ++ (submits (open_stream sid) ∷ adds_path_to_stream sid ∷ submissions fs)))
      × ((s : RecvStream) × (handle_all (suc (suc n)) (new_recv_stream to) fs ≡ some s)
          × (s.read_buf ≡ b ++ concat bs))
relay_all-handle_all via sid b bs p to n some_stream h =
    let q : PathImpl = ensure_stream sid p in
    let opened = ensure_stream-lacks sid p h in
    let r : RelayedAll q.calls (submissions (placed sid 0 (b ∷ bs)))
        (relay_all (relay_frames via sid (b ∷ bs)) (some q)) =
      relay_all-placed via sid 0 (b ∷ bs) q some_stream opened.1 in
    let read =
      handle_all-AreConsecutive to n (placed sid 0 (b ∷ bs))
        (placed-AreConsecutive sid 0 (b ∷ bs)) in
    let same : relay_all (relay_frames via sid (b ∷ bs)) (some p)
        ≡ relay_all (relay_frames via sid (b ∷ bs)) (some q) =
      relay_all-ensure_stream via sid b bs p some_stream opened.1 in
    (
      (
        r.relay,
        same ∙ r.kept,
        r.log
            ∙ ap (λ x. x ++ submissions (placed sid 0 (b ∷ bs))) opened.0
            ∙ append_assoc p.calls _ _,
      ),
      (read.0, read.1, read.2 ∙ payloads-placed sid 0 (b ∷ bs)),
    )
