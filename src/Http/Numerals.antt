-- ===== src/Http/Numerals.antt =====
-- strconv.Itoa and strconv.Atoi, as kwikhttp/protocol.go uses them.
use kwik.Prelude.{
  ℕ, zero, suc, ◌+◌, ◌-◌, ◌*◌, ◌/◌, ◌%◌, ◌^◌, ◌<◌, ◌≤◌, ◌≡◌, refl, ap, ◌∙◌, [], ◌∷◌, Option, none,
  some, ltb, leb, ◌==◌, ◌&&◌, if◌then◌else◌, if_true, if_false, sym, arith, Bool-cases, inl, inr,
}
use kwik.Http.Text.{Text}
use native.Mathlib.Nat.{pow-suc}

-- A Go int: `negsuc n` is - (n + 1).
pub data ℤ : Type 0 where
  pos negsuc : ℕ → ℤ

-- The digits of `n` in front of `out`; 20 rounds are enough for 64 bits.
unfoldable pub emit : ℕ → ℕ → Text → Text
emit zero n out = out
emit (suc rounds) n out =
    let more = emit rounds (n / 10) ((b'0' + n % 10) ∷ out) in
    if ltb n 10 then (b'0' + n) ∷ out else more

unfoldable pub digits : ℕ → Text
digits n = emit 20 n []

-- strconv.Itoa, which is %d too
unfoldable pub itoa : ℤ → Text
itoa (pos n) = digits n
itoa (negsuc n) = b'-' ∷ digits (suc n)

-- The number that digits spell behind `n`.
unfoldable pub scan : Text → ℕ → Option ℕ
scan [] n = some n
scan (c ∷ s) n =
    let rest = scan s (n * 10 + (c - b'0')) in if leb b'0' c && leb c b'9' then rest else none

abbrev pub in_range : ℕ → (ℕ → ℤ) → Option ℕ → Option ℤ
in_range limit sign none = none
in_range limit sign (some n) = if leb n limit then some (sign n) else none

abbrev pub minus : ℕ → ℤ
minus zero = pos zero
minus (suc n) = negsuc n

-- One digit at least.
unfoldable pub magnitude : Text → Option ℕ
magnitude [] = none
magnitude (c ∷ s) = scan (c ∷ s) 0

-- strconv.Atoi; `none` is an error.
unfoldable pub atoi : Text → Option ℤ
atoi [] = none
atoi (c ∷ s) =
    if c == b'-'
    then in_range (2 ^ 63) minus (magnitude s)
    else if c == b'+'
    then in_range (2 ^ 63 - 1) pos (magnitude s)
    else in_range (2 ^ 63 - 1) pos (magnitude (c ∷ s))

scan_digit : (n d : ℕ) (out : Text) → d < 10 → scan ((b'0' + d) ∷ out) n ≡ scan out (n * 10 + d)
unfolding scan
scan_digit n d out h = ground (arith, h)

scan-emit :
    (rounds n : ℕ) (out : Text)
    → n < 10 ^ suc rounds
    → scan (emit (suc rounds) n out) 0 ≡ scan out n
unfolding emit
scan-emit zero n out h =
    rw (if_true (ltb n 10) ((b'0' + n) ∷ out) ((b'0' + n % 10) ∷ out) (ground (arith, h)))
      (scan_digit 0 n out (omega (arith, h)) ∙ ap (scan out) (omega arith))
scan-emit (suc rounds) n out h = elim (Bool-cases (ltb n 10)) [
  | inl e ↦ rw e (scan_digit 0 n out (ground (arith, e)) ∙ ap (scan out) (omega arith))
  | inr e ↦
      let small : n / 10 < 10 ^ suc rounds = omega (arith, h, pow-suc 10 (suc rounds)) in
      rw e (
        scan-emit rounds (n / 10) ((b'0' + n % 10) ∷ out) small
        ∙ scan_digit (n / 10) (n % 10) out (omega arith)
        ∙ ap (scan out) (omega arith))
]

-- A text that starts with a digit.
pub record StartsWithDigit (s : Text) : Type 0 where
  pub first : ℕ
  pub rest : Text
  pub parts : s ≡ first ∷ rest
  pub low : b'0' ≤ first
  pub high : first ≤ b'9'

emit-StartsWithDigit : (rounds n : ℕ) (out : Text) → StartsWithDigit (emit (suc rounds) n out)
unfolding emit
emit-StartsWithDigit zero n out = elim (Bool-cases (ltb n 10)) [
  | inl e ↦ rw e (record {
    first = b'0' + n;
    rest = out;
    parts = refl;
    low = omega arith;
    high = ground (arith, e);
  })
  | inr e ↦ rw e (record {
    first = b'0' + n % 10;
    rest = out;
    parts = refl;
    low = omega arith;
    high = omega arith;
  })
]
emit-StartsWithDigit (suc rounds) n out = elim (Bool-cases (ltb n 10)) [
  | inl e ↦ rw e (record {
    first = b'0' + n;
    rest = out;
    parts = refl;
    low = omega arith;
    high = ground (arith, e);
  })
  | inr e ↦ rw e (emit-StartsWithDigit rounds (n / 10) ((b'0' + n % 10) ∷ out))
]

pub digits-StartsWithDigit : (n : ℕ) → StartsWithDigit (digits n)
unfolding digits
digits-StartsWithDigit n = emit-StartsWithDigit 19 n []

scan-digits : (n : ℕ) → n < 10 ^ 20 → scan (digits n) 0 ≡ some n
unfolding digits scan
scan-digits n h = scan-emit 19 n [] h

magnitude-digits : (n : ℕ) → n < 10 ^ 20 → magnitude (digits n) ≡ some n
unfolding magnitude
magnitude-digits n h =
    let d = digits-StartsWithDigit n in
    ap magnitude d.parts ∙ ap (λ s. scan s 0) (sym d.parts) ∙ scan-digits n h

-- The values of a Go int.
abbrev pub IsInt : ℤ → Type 0
IsInt (pos n) = n < 2 ^ 63
IsInt (negsuc n) = suc n ≤ 2 ^ 63

atoi-digit : (s : Text) → StartsWithDigit s → atoi s ≡ in_range (2 ^ 63 - 1) pos (magnitude s)
unfolding atoi
atoi-digit s d =
    ap atoi d.parts
    ∙ if_false (d.first == b'-') _ _ (ground (arith, d.low))
    ∙ if_false (d.first == b'+') _ _ (ground (arith, d.low))
    ∙ ap (λ t. in_range (2 ^ 63 - 1) pos (magnitude t)) (sym d.parts)

-- Atoi reads every int back from what Itoa, or the verb %d, prints of it.
pub atoi-itoa : (i : ℤ) → IsInt i → atoi (itoa i) ≡ some i
unfolding itoa atoi
atoi-itoa (pos n) h =
    atoi-digit (digits n) (digits-StartsWithDigit n)
    ∙ ap (in_range (2 ^ 63 - 1) pos) (magnitude-digits n (omega (arith, h)))
    ∙ if_true (leb n (2 ^ 63 - 1)) _ _ (ground (arith, h))
atoi-itoa (negsuc n) h =
    ap (in_range (2 ^ 63) minus) (magnitude-digits (suc n) (omega (arith, h)))
    ∙ if_true (leb (suc n) (2 ^ 63)) _ _ (ground (arith, h))
