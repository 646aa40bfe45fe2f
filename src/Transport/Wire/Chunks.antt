-- ===== src/Transport/Wire/Chunks.antt =====
-- How the bytes are cut into reads makes no difference.
use kwik.Prelude.{
  ℕ, zero, suc, ◌+◌, ◌≤◌, ◌<◌, ◌≡◌, ◌≢◌, refl, sym, ap, ◌∙◌, List, [], ◌∷◌, ◌++◌, length, take,
  drop, concat, arith, length-append, length-drop, take-append_le, drop-append_le, append_assoc,
  append-nil,
}
use native.Mathlib.Decide.{dec_lt, ℕ_discrete}
use kwik.Protocol.Bytes.{be_value}
use kwik.Transport.Wire.{
  Outcome, waits, too_large, stuck, prepend, extract, split_packets, go_on, read_chunks,
  max_packet_size,
}

pub prepend-nil : (o : Outcome) → prepend [] o ≡ o
prepend-nil (waits ps left) = refl
prepend-nil (too_large ps) = refl
prepend-nil stuck = refl

-- More fuel than bytes is enough, and how much more does not matter.
pub extract-fuel :
    (f g : ℕ) (buf : List ℕ) → length buf < f → length buf < g → extract f buf ≡ extract g buf
unfolding extract
extract-fuel zero g buf hf hg = absurd (omega arith)
extract-fuel (suc f) zero buf hf hg = absurd (omega arith)
extract-fuel (suc f) (suc g) buf hf hg = ground (
  arith,
  length-drop 4 buf,
  length-drop (be_value (take 4 buf)) (drop 4 buf),
  extract-fuel f g (drop 4 buf),
  extract-fuel f g (drop (be_value (take 4 buf)) (drop 4 buf)),
)

prepend-ne-stuck : (ps : List (List ℕ)) (o : Outcome) → o ≢ stuck → prepend ps o ≢ stuck
prepend-ne-stuck ps (waits qs left) h e = cc
prepend-ne-stuck ps (too_large qs) h e = cc
prepend-ne-stuck ps stuck h e = h refl

pub prepend-prepend :
    (ps qs : List (List ℕ)) (o : Outcome) → prepend (ps ++ qs) o ≡ prepend ps (prepend qs o)
prepend-prepend ps qs (waits rs left) = ap (λ xs. waits xs left) (append_assoc ps qs rs)
prepend-prepend ps qs (too_large rs) = ap too_large (append_assoc ps qs rs)
prepend-prepend ps qs stuck = refl

prepend-go_on :
    (ps : List (List ℕ)) (o : Outcome) (bytes : List ℕ)
    → go_on (prepend ps o) bytes ≡ prepend ps (go_on o bytes)
prepend-go_on ps (waits qs left) bytes = prepend-prepend ps qs (split_packets (left ++ bytes))
prepend-go_on ps (too_large qs) bytes = refl
prepend-go_on ps stuck bytes = refl

-- The five cases of a round of the loop.
pub data Shape (buf : List ℕ) : Type 0 where
  short : length buf < 4 → Shape buf
  empty : 4 ≤ length buf → be_value (take 4 buf) ≡ 0 → Shape buf
  large : 4 ≤ length buf → max_packet_size < be_value (take 4 buf) → Shape buf
  partial :
      4 ≤ length buf
      → be_value (take 4 buf) ≢ 0
      → be_value (take 4 buf) ≤ max_packet_size
      → length buf < 4 + be_value (take 4 buf)
      → Shape buf
  whole :
      be_value (take 4 buf) ≢ 0
      → be_value (take 4 buf) ≤ max_packet_size
      → 4 + be_value (take 4 buf) ≤ length buf
      → Shape buf

Shape-of : (buf : List ℕ) → Shape buf
Shape-of buf = elim (dec_lt (length buf) 4) [
  | yes h ↦ short h
  | no h ↦ elim (ℕ_discrete (be_value (take 4 buf)) 0) [
    | yes z ↦ empty (omega arith) z
    | no z ↦ elim (dec_lt max_packet_size (be_value (take 4 buf))) [
      | yes l ↦ large (omega arith) l
      | no l ↦ elim (dec_lt (length buf) (4 + be_value (take 4 buf))) [
        | yes p ↦ partial (omega arith) z (omega arith) p
        | no p ↦ whole z (omega arith) (omega arith)
      ]
    ]
  ]
]

module _ (f : ℕ) (buf : List ℕ) where
  extract_short : length buf < 4 → extract (suc f) buf ≡ waits [] buf
  unfolding extract
  extract_short h = ground arith

  extract_empty :
      4 ≤ length buf → be_value (take 4 buf) ≡ 0 → extract (suc f) buf ≡ extract f (drop 4 buf)
  unfolding extract
  extract_empty h z = ground arith

  extract_large :
      4 ≤ length buf → max_packet_size < be_value (take 4 buf) → extract (suc f) buf ≡ too_large []
  unfolding extract
  extract_large h l = ground arith

  extract_partial :
      4 ≤ length buf
      → be_value (take 4 buf) ≢ 0
      → be_value (take 4 buf) ≤ max_packet_size
      → length buf < 4 + be_value (take 4 buf)
      → extract (suc f) buf ≡ waits [] buf
  unfolding extract
  extract_partial h z l p = ground arith

  pub extract_whole :
      be_value (take 4 buf) ≢ 0
      → be_value (take 4 buf) ≤ max_packet_size
      → 4 + be_value (take 4 buf) ≤ length buf
      → let len = be_value (take 4 buf) in
        extract (suc f) buf
        ≡ prepend (take len (drop 4 buf) ∷ []) (extract f (drop len (drop 4 buf)))
  unfolding extract
  extract_whole z l p = ground arith

-- A buffer in which the loop stops for want of bytes.
stop_and_go :
    (f : ℕ) (a b : List ℕ)
    → length a + length b < suc f
    → extract (suc f) (a ++ b) ≡ go_on (waits [] a) b
unfolding split_packets
stop_and_go f a b h =
    extract-fuel (suc f) (suc (length (a ++ b))) (a ++ b) (omega (arith, length-append a b))
      (omega arith)
    ∙ sym (prepend-nil (extract (suc (length (a ++ b))) (a ++ b)))

extract-append :
    (f : ℕ) (a b : List ℕ) → length a + length b < f → extract f (a ++ b) ≡ go_on (extract f a) b
extract-append zero a b h = absurd (omega arith)
extract-append (suc f) a b h = elim (Shape-of a) [
  | short s ↦ rw (extract_short f a s) (stop_and_go f a b h)
  | empty s z ↦
      rw
        (
          extract_empty f a s z,
          extract_empty f (a ++ b) (longer s) (head_kept s ∙ z),
          drop-append_le 4 a b s,
        )
        (extract-append f (drop 4 a) b (omega (arith, length-drop 4 a)))
  | large s l ↦
      rw (extract_large f a s l, extract_large f (a ++ b) (longer s) (omega (arith, head_kept s)))
  | partial s z l p ↦ rw (extract_partial f a s z l p) (stop_and_go f a b h)
  | whole z l p ↦
      let s : 4 ≤ length a = omega arith in
      rw
        (
          extract_whole f a z l p,
          extract_whole f (a ++ b) (λ e. z (sym (head_kept s) ∙ e)) (omega (arith, head_kept s))
              (omega (arith, head_kept s, length-append a b)),
          head_kept s,
          drop-append_le 4 a b s,
          take-append_le (be_value (take 4 a)) (drop 4 a) b (omega (arith, length-drop 4 a)),
          drop-append_le (be_value (take 4 a)) (drop 4 a) b (omega (arith, length-drop 4 a)),
          extract-append f (drop (be_value (take 4 a)) (drop 4 a)) b
              (omega (arith, length-drop 4 a, length-drop (be_value (take 4 a)) (drop 4 a))),
        )
        (sym (prepend-go_on (take (be_value (take 4 a)) (drop 4 a) ∷ []) _ b))
]
  where
    longer : 4 ≤ length a → 4 ≤ length (a ++ b)
    longer s = omega (arith, length-append a b)

    head_kept : 4 ≤ length a → be_value (take 4 (a ++ b)) ≡ be_value (take 4 a)
    head_kept s = ap be_value (take-append_le 4 a b s)

pub split_packets-append : (a b : List ℕ) → split_packets (a ++ b) ≡ go_on (split_packets a) b
unfolding split_packets
split_packets-append a b =
    let enough = suc (length (a ++ b)) in
    extract-append enough a b (omega (arith, length-append a b))
    ∙ ap (λ o. go_on o b)
        (extract-fuel enough (suc (length a)) a (omega (arith, length-append a b)) (omega arith))

read_chunks-split_packets :
    (a : List ℕ) (cs : List (List ℕ))
    → read_chunks (split_packets a) cs ≡ split_packets (a ++ concat cs)
unfolding read_chunks
read_chunks-split_packets a [] = rw append-nil
read_chunks-split_packets a (c ∷ cs) =
    rw (sym (split_packets-append a c)) (read_chunks-split_packets (a ++ c) cs)
    ∙ ap split_packets (append_assoc a c (concat cs))

-- The packets that a reader pushes, the bytes that it keeps and whether it stops at a packet that
-- is too large depend on the bytes alone, and not on how the reads cut them.
pub read_chunks_independent :
    (cs : List (List ℕ)) → read_chunks (waits [] []) cs ≡ split_packets (concat cs)
unfolding split_packets extract
read_chunks_independent cs = read_chunks-split_packets [] cs

extract-ne-stuck : (f : ℕ) (buf : List ℕ) → length buf < f → extract f buf ≢ stuck
extract-ne-stuck zero buf h = absurd (omega arith)
extract-ne-stuck (suc f) buf h = elim (Shape-of buf) [
  | short s ↦ rw (extract_short f buf s) (λ e. cc)
  | empty s z ↦
      rw (extract_empty f buf s z)
        (extract-ne-stuck f (drop 4 buf) (omega (arith, length-drop 4 buf)))
  | large s l ↦ rw (extract_large f buf s l) (λ e. cc)
  | partial s z l p ↦ rw (extract_partial f buf s z l p) (λ e. cc)
  | whole z l p ↦ rw (extract_whole f buf z l p) (
      prepend-ne-stuck (take (be_value (take 4 buf)) (drop 4 buf) ∷ []) _ (
        extract-ne-stuck f (drop (be_value (take 4 buf)) (drop 4 buf))
          (omega (arith, length-drop 4 buf, length-drop (be_value (take 4 buf)) (drop 4 buf)))))
]

-- The loop over the read buffer ends on every buffer: fuel of one more than its length is enough.
pub split_packets-ne-stuck : (buf : List ℕ) → split_packets buf ≢ stuck
unfolding split_packets
split_packets-ne-stuck buf = extract-ne-stuck (suc (length buf)) buf (omega arith)
