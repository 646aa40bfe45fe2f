-- ===== src/Protocol/Bytes.antt =====
-- The byte reader and writer of internal/protocol/frame.go. The encodings are binary.BigEndian's.
use kwik.Prelude.{
  ℕ, zero, suc, ◌+◌, ◌*◌, ◌/◌, ◌%◌, ◌^◌, ◌<◌, ◌≡◌, refl, ap, ◌∙◌, List, [], ◌∷◌, ◌++◌, arith,
  length, length-append, IsByte, All, All-append,
}
use native.Mathlib.Nat.{pow-suc, mul-le-mul_right}

-- The `n` low bytes of `v`, highest first: PutUint32 for n = 4 and PutUint64 for n = 8.
unfoldable pub be_bytes : ℕ → ℕ → List ℕ
be_bytes zero v = []
be_bytes (suc n) v = be_bytes n (v / 256) ++ ((v % 256) ∷ [])

unfoldable pub be_value_from : ℕ → List ℕ → ℕ
be_value_from acc [] = acc
be_value_from acc (b ∷ bs) = be_value_from (acc * 256 + b) bs

-- Uint32 and Uint64
unfoldable pub be_value : List ℕ → ℕ
unfolding be_value_from
be_value bs = be_value_from 0 bs

be_value_from-snoc :
    (acc : ℕ) (bs : List ℕ) (b : ℕ)
    → be_value_from acc (bs ++ (b ∷ [])) ≡ be_value_from acc bs * 256 + b
unfolding be_value_from
be_value_from-snoc acc [] b = refl
be_value_from-snoc acc (c ∷ bs) b = be_value_from-snoc (acc * 256 + c) bs b

pub length-be_bytes : (n v : ℕ) → length (be_bytes n v) ≡ n
unfolding be_bytes
length-be_bytes zero v = refl
length-be_bytes (suc n) v =
    omega
      (arith, length-append (be_bytes n (v / 256)) ((v % 256) ∷ []), length-be_bytes n (v / 256))

-- Reading back what was written gives the value.
pub be_value-be_bytes : (n v : ℕ) → v < 256 ^ n → be_value (be_bytes n v) ≡ v
unfolding be_value be_bytes
be_value-be_bytes zero v h = omega arith
be_value-be_bytes (suc n) v h =
    be_value_from-snoc 0 (be_bytes n (v / 256)) (v % 256)
    ∙ omega (arith, be_value-be_bytes n (v / 256) (omega (arith, pow-suc 256 n)))

pub be_bytes-IsByte : (n v : ℕ) → All IsByte (be_bytes n v)
unfolding be_bytes
be_bytes-IsByte zero v = tt
be_bytes-IsByte (suc n) v =
    All-append IsByte (be_bytes n (v / 256)) ((v % 256) ∷ []) (be_bytes-IsByte n (v / 256))
      (omega arith)

digit_bound : (a b p q v : ℕ) → b < 256 → q ≡ p * 256 → v < (a * 256 + b + 1) * p → v < (a + 1) * q
digit_bound a b p q v h e k =
    omega (arith, ap (λ (t : ℕ). (a + 1) * t) e, mul-le-mul_right {m = suc b} {n = 256} p h)

be_value_from-lt :
    (n acc : ℕ) (bs : List ℕ)
    → length bs ≡ n
    → All IsByte bs
    → be_value_from acc bs < (acc + 1) * 256 ^ n
unfolding be_value_from
be_value_from-lt zero acc [] e h = omega arith
be_value_from-lt zero acc (b ∷ bs) e h = absurd (omega arith)
be_value_from-lt (suc n) acc [] e h = absurd (omega arith)
be_value_from-lt (suc n) acc (b ∷ bs) e h =
    digit_bound acc b (256 ^ n) (256 ^ suc n) (be_value_from (acc * 256 + b) bs) h.0 (pow-suc 256 n)
      (be_value_from-lt n (acc * 256 + b) bs (omega arith) h.1)

-- A value of `n` bytes is below 256 ^ n.
pub be_value-lt : (bs : List ℕ) → All IsByte bs → be_value bs < 256 ^ length bs
unfolding be_value
be_value-lt bs h = omega (arith, be_value_from-lt (length bs) 0 bs refl h)
