-- ===== src/Transport/Acks/Loop.antt =====
-- The loops over ranges of sequence numbers: where they end, and what they leave.
use kwik.Prelude.{
  ℕ, zero, suc, ◌+◌, ◌-◌, ◌^◌, ◌≤◌, ◌<◌, ◌≡◌, refl, ◌∙◌, List, [], ◌∷◌, false, none, some, ◌==◌,
  leb, if◌then◌else◌, add64, ◌&&◌, arith, IsU64, All, le→leb,
}
use native.Mathlib.Decide.{dec_le}
use kwik.Protocol.Frame.{AckRange}
use kwik.Transport.Acks.{in_ranges, seq_loop, ranges_loop}

seq_loop_step {ℓ} :
    {S : Type ℓ} (body : ℕ → S → S) (fuel seq largest : ℕ) (s : S)
    → seq ≤ largest
    → seq_loop body (suc fuel) seq largest s ≡ seq_loop body fuel (add64 seq 1) largest (body seq s)
unfolding seq_loop
seq_loop_step body fuel seq largest s h = rw (le→leb seq largest h, seq_loop)

seq_loop_stop {ℓ} :
    {S : Type ℓ} (body : ℕ → S → S) (fuel seq largest : ℕ) (s : S)
    → largest < seq
    → seq_loop body (suc fuel) seq largest s ≡ some s
unfolding seq_loop
seq_loop_stop body fuel seq largest s h =
    let e : leb seq largest ≡ false = ground arith in rw (e, seq_loop)

ranges_loop_next {ℓ} :
    {S : Type ℓ} (body : ℕ → S → S) (fuel : ℕ) (r : AckRange) (rs : List AckRange) (s s' : S)
    → seq_loop body fuel r.smallest r.largest s ≡ some s'
    → ranges_loop body fuel (r ∷ rs) s ≡ ranges_loop body fuel rs s'
unfolding ranges_loop
ranges_loop_next body fuel r rs s s' e = rw (e, ranges_loop)

-- A loop up to the largest uint64 never ends, since the counter wraps round to 0.
pub seq_loop_diverges {ℓ} :
    {S : Type ℓ} (body : ℕ → S → S) (fuel seq : ℕ) (s : S)
    → IsU64 seq
    → seq_loop body fuel seq (2 ^ 64 - 1) s ≡ none
unfolding seq_loop
seq_loop_diverges body zero seq s h = refl
seq_loop_diverges body (suc fuel) seq s h =
    rw (seq_loop_step body fuel seq (2 ^ 64 - 1) s (omega arith))
      (seq_loop_diverges body fuel (add64 seq 1) (body seq s) (omega arith))

-- A loop body that removes its number from what `see` shows, and nothing else.
module _ {ℓ κ} {S : Type ℓ} {B : Type κ} (see : ℕ → S → B) (gone : B) (body : ℕ → S → S)
    (removes : (n seq : ℕ) (s : S)
      → see n (body seq s) ≡ (if seq == n then gone else see n s)) where
  pub seq_loop_removes :
      (fuel seq largest : ℕ) (s : S)
      → largest < 2 ^ 64 - 1
      → largest < fuel + seq
      → (s' : S) × (seq_loop body (suc fuel) seq largest s ≡ some s')
        × ((n : ℕ) → see n s' ≡ (if leb seq n && leb n largest then gone else see n s))
  seq_loop_removes zero seq largest s h enough =
      (s, seq_loop_stop body 0 seq largest s (omega arith), λ n. ground arith)
  seq_loop_removes (suc fuel) seq largest s h enough = elim (dec_le seq largest) [
    | yes more ↦
        let (s', e, seen) =
          seq_loop_removes fuel (add64 seq 1) largest (body seq s) h (omega arith) in
        (
          s',
          seq_loop_step body (suc fuel) seq largest s more ∙ e,
          λ n. seen n ∙ ground (arith, removes n seq s),
        )
    | no done ↦ (s, seq_loop_stop body (suc fuel) seq largest s (omega arith), λ n. ground arith)
  ]

  pub ranges_loop_removes :
      (fuel : ℕ) (rs : List AckRange) (s : S)
      → All (λ r. r.largest < 2 ^ 64 - 1) rs
      → All (λ r. r.largest < fuel) rs
      → (s' : S) × (ranges_loop body (suc fuel) rs s ≡ some s')
        × ((n : ℕ) → see n s' ≡ (if in_ranges n rs then gone else see n s))
  unfolding ranges_loop in_ranges
  ranges_loop_removes fuel [] s h enough = (s, refl, λ n. refl)
  ranges_loop_removes fuel (r ∷ rs) s h enough =
      let (s₁, e₁, seen₁) =
        seq_loop_removes fuel r.smallest r.largest s h.0 (omega (arith, enough.0)) in
      let (s₂, e₂, seen₂) = ranges_loop_removes fuel rs s₁ h.1 enough.1 in
      (
        s₂,
        ranges_loop_next body (suc fuel) r rs s s₁ e₁ ∙ e₂,
        λ n. seen₂ n ∙ ground (arith, seen₁ n),
      )
