-- ===== src/Stream/Send/Pop.antt =====
-- PopFrames cuts the buffered bytes into frames: nothing is lost, reordered or doubled.
use kwik.Prelude.{
  ℕ, ◌-◌, ◌≤◌, ◌<◌, ◌≡◌, refl, sym, ap, ◌∙◌, inl, inr, ◌⊎◌, List, [], ◌∷◌, ◌++◌, ltb, length, take,
  drop, add64, arith, concat, Bool-cases, append_assoc, take-append-drop, length-append,
  length-take, append-nil, ltb→lt,
}
use kwik.Protocol.Frame.{StreamFrame}
use kwik.Stream.Send.{SendStream, Popped, make_frame, pop_loop, add_frame}

-- The data of some frames, in order.
abbrev pub payloads : List StreamFrame → List ℕ
payloads [] = []
payloads (f ∷ fs) = f.payload ++ payloads fs

-- The frames follow one another without a gap, from the offset on.
abbrev pub AreConsecutive : ℕ → List StreamFrame → Type 0
AreConsecutive offset [] = Unit
AreConsecutive offset (f ∷ fs) =
    (f.offset ≡ offset) × AreConsecutive (add64 offset (length f.payload)) fs

-- What the loop promises for the buffer that it started with.
pub record Cuts (chunks : List (List ℕ)) (offset max_bytes : ℕ) (r : Popped) : Type 0 where
  pub conserved : payloads r.frames ++ concat r.left ≡ concat chunks
  pub counted : r.consumed ≡ length (payloads r.frames)
  pub within : r.consumed ≤ max_bytes
  pub consecutive : AreConsecutive offset r.frames
  pub maximal : (r.left ≡ []) ⊎ (r.consumed ≡ max_bytes)

module _ (s : SendStream) (chunk : List ℕ) (chunks : List (List ℕ)) (offset max_bytes : ℕ) where
  split-Cuts :
      max_bytes < length chunk
      → Cuts (chunk ∷ chunks) offset max_bytes (record {
        frames = make_frame s offset (take max_bytes chunk) (drop max_bytes chunk ∷ chunks) ∷ [];
        left = drop max_bytes chunk ∷ chunks;
        consumed = max_bytes;
      })
  split-Cuts h = record {
    conserved = rw append-nil (
        sym (append_assoc (take max_bytes chunk) (drop max_bytes chunk) (concat chunks))
        ∙ ap (λ xs. xs ++ concat chunks) (take-append-drop max_bytes chunk));
    counted = rw append-nil (omega (arith, length-take max_bytes chunk));
    within = omega arith;
    consecutive = (refl, tt);
    maximal = inr refl;
  }

  add_frame-Cuts :
      (r : Popped)
      → length chunk ≤ max_bytes
      → Cuts chunks (add64 offset (length chunk)) (max_bytes - length chunk) r
      → Cuts
          (chunk ∷ chunks)
          offset
          max_bytes
          (add_frame (make_frame s offset chunk chunks) (length chunk) r)
  add_frame-Cuts r h c = record {
    conserved =
        append_assoc chunk (payloads r.frames) (concat r.left) ∙ ap (λ xs. chunk ++ xs) c.conserved;
    counted = omega (arith, c.counted, length-append chunk (payloads r.frames));
    within = omega (arith, c.within);
    consecutive = (refl, c.consecutive);
    maximal = elim c.maximal [ inl e ↦ inl e | inr e ↦ inr (omega arith) ];
  }

module _ (s : SendStream) where
  -- The loop of PopFrames neither loses nor reorders a byte, gives frames that follow one another
  -- from the offset on and hold as many bytes as it counts, takes at most `max_bytes`, and stops
  -- only when it has taken so many or the buffer is empty.
  pub pop_loop-Cuts :
      (chunks : List (List ℕ)) (offset max_bytes : ℕ)
      → Cuts chunks offset max_bytes (pop_loop s chunks offset max_bytes)
  unfolding pop_loop
  pop_loop-Cuts [] offset max_bytes = record {
    conserved = refl;
    counted = refl;
    within = omega arith;
    consecutive = tt;
    maximal = inl refl;
  }
  pop_loop-Cuts (chunk ∷ chunks) offset max_bytes =
      let ih = pop_loop-Cuts chunks (add64 offset (length chunk)) (max_bytes - length chunk) in
      elim (Bool-cases (ltb 0 max_bytes)) [
        | inl room ↦ rw room (elim (Bool-cases (ltb max_bytes (length chunk))) [
          | inl long ↦ rw long (split-Cuts s chunk chunks offset max_bytes (ltb→lt _ _ long))
          | inr short ↦
              rw short (add_frame-Cuts s chunk chunks offset max_bytes _ (ground arith) ih)
        ])
        | inr full ↦ rw full (record {
          conserved = refl;
          counted = refl;
          within = omega arith;
          consecutive = tt;
          maximal = inr (ground arith);
        })
      ]
