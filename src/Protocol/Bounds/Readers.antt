-- ===== src/Protocol/Bounds/Readers.antt =====
-- internal/protocol/frame.go: what the readers that the parsers are made of give for an input of
-- bytes.
use kwik.Prelude.{
  ℕ, zero, suc, ◌*◌, ◌≤◌, ◌<◌, ◌≡◌, refl, ap, subst, ◌^◌, List, [], ◌∷◌, arith, length, inl, inr,
  ◌==◌, leb, length-take, Bool-cases, leb→le, IsU64, IsByte, All, All-take, All-drop,
}
use kwik.Protocol.Errors.{Result, ok, err, panic}
use kwik.Protocol.Reader.{
  Reader, ◌>>=◌, continue, pure, read_byte, read_full, read_var_int, make_slice,
}
use kwik.Protocol.Bytes.{be_value, be_value-lt}
use kwik.Protocol.Frame.{AckRange, Frame, RangeIsU64}
use kwik.Protocol.Parse.{switch, parse_ranges}

-- A successful result has the property, and leaves bytes.
abbrev pub Yields : {A : Type 0} → (A → Type 0) → Result (A × List ℕ) → Type 0
Yields P (ok (a, rest)) = P a × All IsByte rest
Yields P (err e) = Unit
Yields P panic = Unit

abbrev pub Gives : {A : Type 0} → (A → Type 0) → Reader A → Type 0
Gives P p = (src : List ℕ) → All IsByte src → Yields P (p src)

pub Yields-continue :
    {A B : Type 0} (P : A → Type 0) (Q : B → Type 0) (f : A → Reader B) (r : Result (A × List ℕ))
    → Yields P r
    → ((a : A) → P a → Gives Q (f a))
    → Yields Q (continue r f)
Yields-continue P Q f (ok (a, rest)) h k = k a h.0 rest h.1
Yields-continue P Q f (err e) h k = tt
Yields-continue P Q f panic h k = tt

pub Yields-map :
    {A : Type 0} (P Q : A → Type 0) (r : Result (A × List ℕ))
    → ((a : A) → P a → Q a)
    → Yields P r
    → Yields Q r
Yields-map P Q (ok (a, rest)) k h = (k a h.0, h.1)
Yields-map P Q (err e) k h = tt
Yields-map P Q panic k h = tt

pub >>=-Gives :
    {A B : Type 0} (P : A → Type 0) (Q : B → Type 0) (m : Reader A) (f : A → Reader B)
    → Gives P m
    → ((a : A) → P a → Gives Q (f a))
    → Gives Q (m >>= f)
>>=-Gives P Q m f hm hf src h = Yields-continue P Q f (m src) (hm src h) hf

pub pure-Gives : {A : Type 0} (P : A → Type 0) (a : A) → P a → Gives P (pure a)
pure-Gives P a h src k = (h, k)

pub read_byte-Gives : Gives IsByte read_byte
unfolding read_byte
read_byte-Gives [] h = tt
read_byte-Gives (b ∷ src) h = (h.0, h.1)

abbrev pub IsRead : ℕ → List ℕ → Type 0
IsRead n bs = All IsByte bs × (length bs ≡ n)

pub read_full-Gives : (n : ℕ) → Gives (IsRead n) (read_full n)
unfolding read_full
read_full-Gives n src h = elim (Bool-cases (leb n (length src))) [
  | inl enough ↦ rw enough (
    (All-take IsByte n src h, omega (arith, length-take n src, leb→le n (length src) enough)),
    All-drop IsByte n src h,
  )
  | inr short ↦ rw short (elim (Bool-cases (length src == 0)) [ inl e ↦ rw e tt | inr e ↦ rw e tt ])
]

pub read_var_int-Gives : Gives IsU64 read_var_int
unfolding read_var_int
read_var_int-Gives =
    >>=-Gives (IsRead 8) IsU64 (read_full 8) (λ buf. pure (be_value buf)) (read_full-Gives 8)
      λ buf h.
        pure-Gives IsU64 (be_value buf)
          (subst (λ n. be_value buf < 256 ^ n) h.1 (be_value-lt buf h.0))

pub make_slice-Gives :
    (max_alloc size n : ℕ) → Gives (λ u. size * n ≤ max_alloc) (make_slice max_alloc size n)
unfolding make_slice
make_slice-Gives max_alloc size n src h = elim (Bool-cases (leb (size * n) max_alloc)) [
  | inl fits ↦ rw fits (leb→le (size * n) max_alloc fits, h)
  | inr big ↦ rw big tt
]

abbrev pub AreRanges : ℕ → List AckRange → Type 0
AreRanges n rs = All RangeIsU64 rs × (length rs ≡ n)

pub parse_ranges-Gives : (n : ℕ) → Gives (AreRanges n) (parse_ranges n)
unfolding parse_ranges
parse_ranges-Gives zero = pure-Gives (AreRanges 0) [] (tt, refl)
parse_ranges-Gives (suc n) = >>=-Gives IsU64 (AreRanges (suc n)) _ _ read_var_int-Gives λ small hs.
    >>=-Gives IsU64 (AreRanges (suc n)) _ _ read_var_int-Gives λ large hl.
      >>=-Gives (AreRanges n) (AreRanges (suc n)) _ _ (parse_ranges-Gives n) λ ranges hr.
        pure-Gives (AreRanges (suc n)) (record { smallest = small; largest = large } ∷ ranges)
          (((hs, hl), hr.0), ap suc hr.1)

pub switch-Gives :
    (P : Frame → Type 0) (t : ℕ) (cases : List (ℕ × Reader Frame)) (d : Reader Frame)
    → All (λ c. Gives P c.1) cases
    → Gives P d
    → Gives P (switch t cases d)
unfolding switch
switch-Gives P t [] d hs hd src h = hd src h
switch-Gives P t ((k, p) ∷ cases) d hs hd src h = elim (Bool-cases (t == k)) [
  | inl e ↦ rw e (hs.0 src h)
  | inr e ↦ rw e (switch-Gives P t cases d hs.1 hd src h)
]
