-- ===== src/Transport/Multiplexer/Delivery.antt =====
-- internal/transport/multiplexer.go over stream.go: each stream gets its own frames, in their order.
use kwik.Prelude.{
  ◌++◌, append-nil, append_assoc, leb, length, ℕ, ◌≡◌, refl, sym, subst, ap, ◌∙◌, List, [], ◌∷◌,
  Option, none, some, false, ◌==◌, if◌then◌else◌, Bool-cases, Option-cases, inl, inr, arith,
}
use kwik.Prelude.Map.{Map, lookup, insert, lookup-insert, or_else}
use kwik.Protocol.Frame.{
  AckRange, Frame, StreamFrame, stream, ack, ping, add_path, add_path_resp, relay_data, open_stream,
  open_stream_resp,
}
use kwik.Stream.Recv.{RecvStream}
use kwik.Stream.Recv.Reorder.{deliver, deliver_all, handle_frame-deliver}
use kwik.Streams.StreamImpl.{StreamImpl}
use kwik.Streams.Manager.{StreamManager, recv_of, get_stream, get_stream_frame_handler}
use kwik.Transport.Multiplexer.{
  Multiplexer, receive, store_recv, hand_over, without_handler, process_stream_frame, process_batch,
  push_frames, take_batch, batch_processing_size,
}

-- The STREAM frames among the frames of a packet.
unfoldable pub streams_of : List Frame → List StreamFrame
streams_of [] = []
streams_of (stream f ∷ fs) = f ∷ streams_of fs
streams_of (f ∷ fs) = streams_of fs

-- The frames of one stream.
unfoldable pub frames_for : ℕ → List StreamFrame → List StreamFrame
frames_for sid [] = []
frames_for sid (f ∷ fs) =
    let rest = frames_for sid fs in if f.stream_id == sid then f ∷ rest else rest

receive-deliver : (r : RecvStream) (f : StreamFrame) → receive r f ≡ deliver r f
unfolding receive
receive-deliver r f = ap (or_else r) (handle_frame-deliver 0 r f)

module _ {ℓ} {P : Type ℓ} where
  abbrev give : ℕ → StreamFrame → Option (StreamImpl P) → Option (StreamImpl P)
  give sid f none = none
  give sid f (some s) =
      some (if f.stream_id == sid then record s { recv = deliver s.recv f } else s)

  -- What one frame does to the stream `sid`.
  record Handled (sid : ℕ) (f : StreamFrame) (m m' : Multiplexer P) : Type ℓ where
    stream : lookup sid m'.stream_manager.streams ≡ give sid f (lookup sid m.stream_manager.streams)
    buffers : m'.reception_buffers ≡ m.reception_buffers

  give-other :
      (sid : ℕ) (f : StreamFrame) (o : Option (StreamImpl P))
      → (f.stream_id == sid) ≡ false
      → o ≡ give sid f o
  give-other sid f none e = refl
  give-other sid f (some s) e = rw e refl

  give-none : (sid : ℕ) (f : StreamFrame) (o : Option (StreamImpl P)) → o ≡ none → o ≡ give sid f o
  give-none sid f none e = refl
  give-none sid f (some s) e = cc

  -- The multiplexer with the path and the packet that the stream was last seen in.
  abbrev seen : ℕ → ℕ → StreamFrame → Multiplexer P → Multiplexer P
  seen pid seq f m = record m {
    last_seen_path_for_stream = insert f.stream_id pid m.last_seen_path_for_stream;
    last_seen_packet_seq_for_stream = insert f.stream_id seq m.last_seen_packet_seq_for_stream;
  }

  missing-Handled :
      (pid seq sid : ℕ) (f : StreamFrame) (m : Multiplexer P)
      → lookup f.stream_id m.stream_manager.streams ≡ none
      → Handled sid f m (process_stream_frame pid seq f m)
  unfolding process_stream_frame get_stream_frame_handler get_stream hand_over without_handler
  missing-Handled pid seq sid f m e =
      let streams = m.stream_manager.streams in
      let same : lookup sid streams ≡ give sid f (lookup sid streams) =
        elim (Bool-cases (f.stream_id == sid)) [
          | inl h ↦
              let id : f.stream_id ≡ sid = ground (arith, h) in
              give-none sid f (lookup sid streams) (subst (λ k. lookup k streams ≡ none) id e)
          | inr h ↦ give-other sid f (lookup sid streams) h
        ] in
      let q : Multiplexer P = seen pid seq f m in
      let kept : process_stream_frame pid seq f m ≡ q =
        ap (λ o. hand_over (recv_of o) f q) e ∙ ap (λ o. without_handler o f q) e in
      subst (Handled sid f m) (sym kept) (record { stream = same; buffers = refl })

  stored :
      (sid : ℕ) (f : StreamFrame) (s : StreamImpl P) (streams : Map (StreamImpl P))
      → lookup f.stream_id streams ≡ some s
      → lookup sid (insert f.stream_id (record s { recv = receive s.recv f }) streams)
        ≡ give sid f (lookup sid streams)
  stored sid f s streams e =
      lookup-insert sid f.stream_id (record s { recv = receive s.recv f }) streams
      ∙ elim (Bool-cases (f.stream_id == sid)) [
        | inl h ↦
            let id : f.stream_id ≡ sid = ground (arith, h) in
            let found : lookup sid streams ≡ some s = subst (λ k. lookup k streams ≡ some s) id e in
            rw (found, h, receive-deliver s.recv f) refl
        | inr h ↦ rw h (give-other sid f (lookup sid streams) h)
      ]

  store_recv-found :
      (sid : ℕ) (r : RecvStream) (s : StreamImpl P) (sm : StreamManager P)
      → lookup sid sm.streams ≡ some s
      → store_recv sid r sm ≡ record sm { streams = insert sid (record s { recv = r }) sm.streams }
  unfolding store_recv get_stream
  store_recv-found sid r s sm e = rw (e, store_recv, get_stream) refl

  found-Handled :
      (pid seq sid : ℕ) (f : StreamFrame) (s : StreamImpl P) (m : Multiplexer P)
      → lookup f.stream_id m.stream_manager.streams ≡ some s
      → Handled sid f m (process_stream_frame pid seq f m)
  unfolding process_stream_frame get_stream_frame_handler get_stream hand_over store_recv
  found-Handled pid seq sid f s m e =
      let q : Multiplexer P = seen pid seq f m in
      let t : StreamImpl P = record s { recv = receive s.recv f } in
      let sm : StreamManager P = record m.stream_manager {
        streams = insert f.stream_id t m.stream_manager.streams;
      } in
      let kept : process_stream_frame pid seq f m ≡ record q { stream_manager = sm } =
        ap (λ o. hand_over (recv_of o) f q) e
        ∙ ap (λ x. record q { stream_manager = x })
            (store_recv-found f.stream_id (receive s.recv f) s m.stream_manager e) in
      subst (Handled sid f m) (sym kept)
        (record { stream = stored sid f s m.stream_manager.streams e; buffers = refl })

  process_stream_frame-Handled :
      (pid seq sid : ℕ) (f : StreamFrame) (m : Multiplexer P)
      → Handled sid f m (process_stream_frame pid seq f m)
  process_stream_frame-Handled pid seq sid f m =
      elim (Option-cases (lookup f.stream_id m.stream_manager.streams)) [
        | inl e ↦ missing-Handled pid seq sid f m e
        | inr (s, e) ↦ found-Handled pid seq sid f s m e
      ]

  unfoldable pub give_all : ℕ → List StreamFrame → Option (StreamImpl P) → Option (StreamImpl P)
  give_all sid fs none = none
  give_all sid fs (some s) = some (record s { recv = deliver_all s.recv (frames_for sid fs) })

  give_all-give :
      (sid : ℕ) (f : StreamFrame) (fs : List StreamFrame) (o : Option (StreamImpl P))
      → give_all sid fs (give sid f o) ≡ give_all sid (f ∷ fs) o
  unfolding give_all frames_for deliver_all
  give_all-give sid f fs none = refl
  give_all-give sid f fs (some s) = elim (Bool-cases (f.stream_id == sid)) [
    | inl e ↦ rw e refl
    | inr e ↦ rw e refl
  ]

  process_batch-give_all :
      (pid seq sid : ℕ) (fs : List StreamFrame) (m : Multiplexer P)
      → let m' = process_batch pid seq fs m in
        (lookup sid m'.stream_manager.streams
          ≡ give_all sid fs (lookup sid m.stream_manager.streams))
        × (m'.reception_buffers ≡ m.reception_buffers)
  unfolding process_batch give_all frames_for deliver_all
  process_batch-give_all pid seq sid [] m =
      elim (Option-cases (lookup sid m.stream_manager.streams)) [
        | inl e ↦ rw e (refl, refl)
        | inr (s, e) ↦ rw e (refl, refl)
      ]
  process_batch-give_all pid seq sid (f ∷ fs) m =
      let one = process_stream_frame-Handled pid seq sid f m in
      let rest = process_batch-give_all pid seq sid fs (process_stream_frame pid seq f m) in
      (
        rest.0
            ∙ ap (give_all sid fs) one.stream
            ∙ give_all-give sid f fs (lookup sid m.stream_manager.streams),
        rest.1 ∙ one.buffers,
      )

  -- What a stream, and the buffers, have become behind some frames.
  pub record Given (sid : ℕ) (fs : List StreamFrame) (m m' : Multiplexer P) : Type ℓ where
    pub stream :
        lookup sid m'.stream_manager.streams ≡ give_all sid fs (lookup sid m.stream_manager.streams)
    pub buffers : m'.reception_buffers ≡ m.reception_buffers

  pub process_batch-Given :
      (pid seq sid : ℕ) (fs : List StreamFrame) (m : Multiplexer P)
      → Given sid fs m (process_batch pid seq fs m)
  process_batch-Given pid seq sid fs m =
      let given = process_batch-give_all pid seq sid fs m in
      record { stream = given.0; buffers = given.1 }

  give_all-append :
      (sid : ℕ) (xs ys : List StreamFrame) (o : Option (StreamImpl P))
      → give_all sid ys (give_all sid xs o) ≡ give_all sid (xs ++ ys) o
  unfolding give_all frames_for deliver_all
  give_all-append sid [] ys none = refl
  give_all-append sid [] ys (some s) = refl
  give_all-append sid (x ∷ xs) ys o =
      ap (give_all sid ys) (sym (give_all-give sid x xs o))
      ∙ give_all-append sid xs ys (give sid x o)
      ∙ give_all-give sid x (xs ++ ys) o

  Given-append :
      (sid : ℕ) (xs ys : List StreamFrame) (m n k : Multiplexer P)
      → Given sid xs m n
      → Given sid ys n k
      → Given sid (xs ++ ys) m k
  Given-append sid xs ys m n k g h = record {
    stream =
        h.stream
        ∙ ap (give_all sid ys) g.stream
        ∙ give_all-append sid xs ys (lookup sid m.stream_manager.streams);
    buffers = h.buffers ∙ g.buffers;
  }

  -- A function that leaves a stream and the reception buffers as they are.
  pub record LeavesAlone (sid : ℕ) (m m' : Multiplexer P) : Type ℓ where
    pub stream : lookup sid m'.stream_manager.streams ≡ lookup sid m.stream_manager.streams
    pub buffers : m'.reception_buffers ≡ m.reception_buffers

  LeavesAlone-Given :
      (sid : ℕ) (fs : List StreamFrame) (m n k : Multiplexer P)
      → LeavesAlone sid m n
      → Given sid fs n k
      → Given sid fs m k
  LeavesAlone-Given sid fs m n k l g = record {
    stream = g.stream ∙ ap (give_all sid fs) l.stream;
    buffers = g.buffers ∙ l.buffers;
  }

  module _ {κ} {B : Type κ} (on_ack : ℕ → List AckRange → B → B)
      (on_control : ℕ → Frame → Multiplexer P → B → Multiplexer P × B) (sid : ℕ)
      (apart : (pid : ℕ) (f : Frame) (m : Multiplexer P) (b : B)
        → LeavesAlone sid m (on_control pid f m b).0) where
    push_frames-Given :
        (pid seq : ℕ) (batch : List StreamFrame) (fs : List Frame) (m : Multiplexer P) (b : B)
        → Given sid
            (batch ++ streams_of fs)
            m
            (push_frames on_ack on_control pid seq batch fs m b).0
    unfolding push_frames streams_of take_batch process_batch
    push_frames-Given pid seq batch [] m b =
        rw (append-nil batch) (process_batch-Given pid seq sid batch m)
    push_frames-Given pid seq batch (ack f ∷ fs) m b =
        push_frames-Given pid seq batch fs m (on_ack pid f.ack_ranges b)
    push_frames-Given pid seq batch (stream f ∷ fs) m b =
        let full = batch ++ (f ∷ []) in
        let joined : full ++ streams_of fs ≡ batch ++ (f ∷ streams_of fs) =
          append_assoc batch (f ∷ []) (streams_of fs) in
        let done = process_batch pid seq full m in
        elim (Bool-cases (leb batch_processing_size (length full))) [
          | inl e ↦
              rw (e, take_batch, push_frames)
                (subst (λ xs. Given sid xs m (push_frames on_ack on_control pid seq [] fs done b).0)
                  joined
                  (Given-append sid full (streams_of fs) m done _
                    (process_batch-Given pid seq sid full m)
                    (push_frames-Given pid seq [] fs done b)))
          | inr e ↦
              rw (e, take_batch, push_frames)
                (subst (λ xs. Given sid xs m (push_frames on_ack on_control pid seq full fs m b).0)
                  joined (push_frames-Given pid seq full fs m b))
        ]
    push_frames-Given pid seq batch (ping ∷ fs) m b =
        LeavesAlone-Given sid (batch ++ streams_of fs) m _ _ (apart pid ping m b)
          (push_frames-Given pid seq batch fs _ (on_control pid ping m b).1)
    push_frames-Given pid seq batch (add_path a ∷ fs) m b =
        LeavesAlone-Given sid (batch ++ streams_of fs) m _ _ (apart pid (add_path a) m b)
          (push_frames-Given pid seq batch fs _ (on_control pid (add_path a) m b).1)
    push_frames-Given pid seq batch (add_path_resp f ∷ fs) m b =
        LeavesAlone-Given sid (batch ++ streams_of fs) m _ _ (apart pid (add_path_resp f) m b)
          (push_frames-Given pid seq batch fs _ (on_control pid (add_path_resp f) m b).1)
    push_frames-Given pid seq batch (relay_data f ∷ fs) m b =
        LeavesAlone-Given sid (batch ++ streams_of fs) m _ _ (apart pid (relay_data f) m b)
          (push_frames-Given pid seq batch fs _ (on_control pid (relay_data f) m b).1)
    push_frames-Given pid seq batch (open_stream i ∷ fs) m b =
        LeavesAlone-Given sid (batch ++ streams_of fs) m _ _ (apart pid (open_stream i) m b)
          (push_frames-Given pid seq batch fs _ (on_control pid (open_stream i) m b).1)
    push_frames-Given pid seq batch (open_stream_resp f ∷ fs) m b =
        LeavesAlone-Given sid (batch ++ streams_of fs) m _ _ (apart pid (open_stream_resp f) m b)
          (push_frames-Given pid seq batch fs _ (on_control pid (open_stream_resp f) m b).1)

    -- The loop of PushPacket gives a stream of the session exactly its own frames, in the order of
    -- the packet and whatever other frames stand between them, and changes nothing else of the
    -- stream; no frame ever goes to the reception buffers of the multiplexer. The control frames in
    -- the packet are taken to leave this stream and the buffers alone, whatever else they do.
    pub push_frames-deliver_all :
        (pid seq : ℕ) (fs : List Frame) (s : StreamImpl P) (m : Multiplexer P) (b : B)
        → lookup sid m.stream_manager.streams ≡ some s
        → let m' = (push_frames on_ack on_control pid seq [] fs m b).0 in
          (lookup sid m'.stream_manager.streams
            ≡ some (record s { recv = deliver_all s.recv (frames_for sid (streams_of fs)) }))
          × (m'.reception_buffers ≡ m.reception_buffers)
    unfolding give_all
    push_frames-deliver_all pid seq fs s m b e =
        let given = push_frames-Given pid seq [] fs m b in
        (given.stream ∙ ap (give_all sid (streams_of fs)) e, given.buffers)
