-- ===== src/Stream/Recv/Reorder.antt =====
-- What RecvStream does with frames that arrive out of order.
use kwik.Prelude.{
  ℕ, suc, ◌≡◌, refl, List, [], ◌∷◌, ◌++◌, none, some, ltb, ◌==◌, ==_self, if◌then◌else◌, length,
  add64, arith, Option-cases, inl, inr,
}
use kwik.Prelude.Map.{lookup, lookup-delete}
use kwik.Protocol.Frame.{StreamFrame}
use kwik.Stream.Recv.{
  RecvStream, take_chunk, drain, append_data, set_fin, notify, buffer_chunk, handle_frame,
  handle_all,
}

-- The loop over the buffered chunks without its fuel: it runs at most once.
unfoldable pub drain_once : RecvStream → RecvStream
drain_once s = elim (lookup s.expected_offset s.buffered) [ none ↦ s | some buf ↦ take_chunk s buf ]

-- After a round, no chunk stands at the new offset, since the round deleted it.
lookup-take_chunk :
    (s : RecvStream) (buf : List ℕ)
    → lookup (take_chunk s buf).expected_offset (take_chunk s buf).buffered ≡ none
unfolding take_chunk
lookup-take_chunk s buf =
    let next = add64 s.expected_offset (length buf) in
    rw (lookup-delete next next s.buffered, ==_self next)

-- The loop over the buffered chunks ends on every state, after one chunk at most.
pub drain-drain_once : (n : ℕ) (s : RecvStream) → drain (suc (suc n)) s ≡ some (drain_once s)
unfolding drain drain_once
drain-drain_once n s = elim (Option-cases (lookup s.expected_offset s.buffered)) [
  | inl e ↦ ground (arith, e)
  | inr (buf, e) ↦ ground (arith, e, lookup-take_chunk s buf)
]

-- What handleFrame does, without fuel.
unfoldable pub deliver : RecvStream → StreamFrame → RecvStream
deliver s f =
    if f.offset == s.expected_offset
    then notify (set_fin f.fin (drain_once (append_data s f.payload)))
    else if ltb s.expected_offset f.offset
    then notify (buffer_chunk s f.offset f.payload)
    else notify s

-- handleFrame ends on every frame in every state: two rounds of its loop are enough.
pub handle_frame-deliver :
    (n : ℕ) (s : RecvStream) (f : StreamFrame) → handle_frame (suc (suc n)) s f ≡ some (deliver s f)
unfolding handle_frame deliver
handle_frame-deliver n s f = ground (arith, drain-drain_once n (append_data s f.payload))

-- The loop takes the chunk at the expected offset, and forgets the one behind it.
pub drain_once-some :
    (s : RecvStream) (buf : List ℕ)
    → lookup s.expected_offset s.buffered ≡ some buf
    → drain_once s ≡ take_chunk s buf
unfolding drain_once
drain_once-some s buf e = ground (arith, e)

pub drain_once-none :
    (s : RecvStream) → lookup s.expected_offset s.buffered ≡ none → drain_once s ≡ s
unfolding drain_once
drain_once-none s e = ground (arith, e)

unfoldable pub deliver_all : RecvStream → List StreamFrame → RecvStream
deliver_all s [] = s
deliver_all s (f ∷ fs) = deliver_all (deliver s f) fs

pub handle_all-deliver_all :
    (n : ℕ) (s : RecvStream) (fs : List StreamFrame)
    → handle_all (suc (suc n)) s fs ≡ some (deliver_all s fs)
unfolding handle_all deliver_all
handle_all-deliver_all n s [] = refl
handle_all-deliver_all n s (f ∷ fs) =
    rw (handle_frame-deliver n s f, handle_all) (handle_all-deliver_all n (deliver s f) fs)

-- A frame that fills the gap in front of a buffered chunk brings that chunk into the read buffer,
-- and removes whatever chunk was buffered behind it, so that a third part of the stream is neither
-- delivered nor kept.
pub handle_frame_drops_third :
    (s : RecvStream) (f : StreamFrame) (buf : List ℕ)
    → f.offset ≡ s.expected_offset
    → lookup (add64 s.expected_offset (length f.payload)) s.buffered ≡ some buf
    → (n : ℕ)
    → let next = add64 (add64 s.expected_offset (length f.payload)) (length buf) in
      (s' : RecvStream) × (handle_frame (suc (suc n)) s f ≡ some s')
      × (s'.read_buf ≡ (s.read_buf ++ f.payload) ++ buf)
      × (s'.expected_offset ≡ next)
      × (lookup next s'.buffered ≡ none)
unfolding deliver append_data take_chunk set_fin notify
handle_frame_drops_third s f buf e found n =
    let first = append_data s f.payload in
    (
      deliver s f,
      handle_frame-deliver n s f,
      ground (arith, drain_once-some first buf found),
      ground (arith, drain_once-some first buf found),
      ground (arith, drain_once-some first buf found, lookup-take_chunk first buf),
    )
