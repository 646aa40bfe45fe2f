-- ===== src/Http/RoundTrip.antt =====
-- kwikhttp/protocol.go: a message that has been written is read back.
use kwik.Prelude.{
  ℕ, zero, suc, ◌≤◌, ◌<◌, ◌^◌, ◌≡◌, refl, sym, ap, ◌∙◌, List, [], ◌∷◌, ◌++◌, append_assoc, true,
  false, some, if_true, if_false, All, arith, length, length-append, take-length, ltb, codes, ◌⊎◌,
  inl, inr,
}
use kwik.Http.Numerals.{pos, itoa, digits, digits-StartsWithDigit, atoi-itoa}
use kwik.Http.Text.{Text, same, trim_left, trim_right, is_space, trim_space, read_string}
use kwik.Http.Headers.{get, Headers, add}
use kwik.Http.Messages.{serialize_headers, serialize_values, header_line, end_of_line}
use kwik.Http.Parse.{
  parsed, ◌>>=◌, read_full, read_sized, read_body, read_rest, read_headers, on_line,
}
use kwik.Http.Rebuild.{pairs_of, pairs, add_pairs, IsMap, add_pairs-pairs}
use kwik.Http.Lines.{
  IsField, field, add_line-field, field_ne_nil, read_string-field, read_string-end,
}

unfoldable pub lines : List (Text × Text) → Text
lines [] = []
lines (p ∷ ps) = header_line p.0 p.1 ++ lines ps

lines-append : (ps qs : List (Text × Text)) → lines (ps ++ qs) ≡ lines ps ++ lines qs
unfolding lines
lines-append [] qs = refl
lines-append (p ∷ ps) qs =
    ap (◌++◌ (header_line p.0 p.1)) (lines-append ps qs)
    ∙ sym (append_assoc (header_line p.0 p.1) (lines ps) (lines qs))

lines-pairs_of :
    (key : Text) (values : List Text) → serialize_values key values ≡ lines (pairs_of key values)
unfolding serialize_values lines
lines-pairs_of key [] = refl
lines-pairs_of key (value ∷ values) = ap (◌++◌ (header_line key value)) (lines-pairs_of key values)

pub serialize_headers-lines : (h : Headers) → serialize_headers h ≡ lines (pairs h)
unfolding serialize_headers lines
serialize_headers-lines [] = refl
serialize_headers-lines (entry ∷ h) =
    ap (λ s. s ++ serialize_headers h) (lines-pairs_of entry.0 entry.1)
    ∙ ap (◌++◌ (lines (pairs_of entry.0 entry.1))) (serialize_headers-lines h)
    ∙ sym (lines-append (pairs_of entry.0 entry.1) (pairs h))

abbrev pub AreFields : List (Text × Text) → Type 0
AreFields = All (λ (p : Text × Text). IsField p.0 p.1)

blank_line : same (trim_space end_of_line) [] ≡ true
unfolding trim_space same trim_left trim_right is_space
blank_line = refl

pub read_headers-lines :
    (fuel : ℕ) (ps : List (Text × Text)) (h : Headers) (rest : Text)
    → length ps < fuel
    → AreFields ps
    → read_headers fuel h (lines ps ++ (end_of_line ++ rest)) ≡ parsed (add_pairs ps h, rest)
unfolding read_headers on_line lines add_pairs
read_headers-lines zero ps h rest enough f = absurd (omega arith)
read_headers-lines (suc fuel) [] h rest enough f =
    ap (on_line (read_headers fuel) h) (read_string-end [] rest tt)
    ∙ if_true (same (trim_space end_of_line) []) _ _ blank_line
read_headers-lines (suc fuel) (p ∷ ps) h rest enough f =
    let more : Text = lines ps ++ (end_of_line ++ rest) in
    let line : read_string ((header_line p.0 p.1 ++ lines ps) ++ (end_of_line ++ rest))
        ≡ some (field p.0 p.1 ++ end_of_line, more) =
      ap read_string (append_assoc (header_line p.0 p.1) (lines ps) (end_of_line ++ rest))
      ∙ read_string-field p.0 p.1 more f.0 in
    ap (on_line (read_headers fuel) h) line
    ∙ if_false (same (trim_space (field p.0 p.1 ++ end_of_line)) []) _ _ (field_ne_nil p.0 p.1 f.0)
    ∙ ap (λ x. read_headers fuel x more) (add_line-field p.0 p.1 h f.0)
    ∙ read_headers-lines fuel ps (add p.0 p.1 h) rest (omega arith) f.1

pub length-lines : (ps : List (Text × Text)) (s : Text) → length ps ≤ length (lines ps ++ s)
unfolding lines
length-lines [] s = omega arith
length-lines ((key, value) ∷ ps) s =
    let apart = append_assoc (header_line key value) (lines ps) s in
    omega (
      arith,
      length-lines ps s,
      ap length apart,
      length-append (header_line key value) (lines ps ++ s),
      length-append key (b':' ∷ b' ' ∷ (value ++ end_of_line)),
    )

-- The body agrees with the header content-length, or there is neither.
abbrev pub HasLength : ℕ → Headers → Text → Type 0
HasLength max_alloc h body =
    ((body ≡ []) × (get (codes "content-length") h ≡ []))
    ⊎ ((get (codes "content-length") h ≡ itoa (pos (length body)))
        × (length body < 2 ^ 63)
        × (length body ≤ max_alloc))

pub same-digits : (n : ℕ) → same (digits n) [] ≡ false
unfolding same
same-digits n = ap (λ s. same s []) (digits-StartsWithDigit n).parts

read_sized-body :
    (max_alloc : ℕ) (body rest : Text)
    → length body ≤ max_alloc
    → read_sized max_alloc (some (pos (length body))) (body ++ rest) ≡ parsed body
unfolding read_sized read_full
read_sized-body max_alloc [] rest fits = refl
read_sized-body max_alloc (c ∷ body) rest fits =
    if_false (ltb max_alloc (suc (length body))) _ _ (ground (arith, fits))
    ∙ if_false (ltb (length ((c ∷ body) ++ rest)) (suc (length body))) _ _
        (ground (arith, length-append (c ∷ body) rest))
    ∙ ap parsed (take-length (c ∷ body) rest)

read_body-HasLength :
    (max_alloc : ℕ) (h : Headers) (body rest : Text)
    → HasLength max_alloc h body
    → read_body max_alloc h (body ++ rest) ≡ parsed body
unfolding read_body itoa same
read_body-HasLength max_alloc h body rest (inl (empty, none_there)) = rw (none_there, empty) refl
read_body-HasLength max_alloc h body rest (inr (there, short, fits)) = rw there (
    if_false (same (digits (length body)) []) _ _ (same-digits (length body))
    ∙ ap (λ o. read_sized max_alloc o (body ++ rest)) (atoi-itoa (pos (length body)) short)
    ∙ read_sized-body max_alloc body rest fits)

-- What follows the start line of a message.
pub read_rest-serialize_headers :
    (max_alloc : ℕ) (h : Headers) (body rest : Text)
    → AreFields (pairs h)
    → IsMap h
    → HasLength max_alloc h body
    → read_rest max_alloc (serialize_headers h ++ (end_of_line ++ (body ++ rest)))
      ≡ parsed (h, body)
unfolding read_rest
read_rest-serialize_headers max_alloc h body rest fields keys sized =
    let s : Text = lines (pairs h) ++ (end_of_line ++ (body ++ rest)) in
    let read : read_headers (suc (length s)) [] s ≡ parsed (h, body ++ rest) =
      read_headers-lines (suc (length s)) (pairs h) [] (body ++ rest)
        (omega (arith, length-lines (pairs h) (end_of_line ++ (body ++ rest)))) fields
      ∙ ap (λ x. parsed (x, body ++ rest)) (add_pairs-pairs [] h keys) in
    ap (λ x. read_rest max_alloc (x ++ (end_of_line ++ (body ++ rest)))) (serialize_headers-lines h)
    ∙ ap (λ r. r >>= λ hr. read_body max_alloc hr.0 hr.1 >>= λ b. parsed (hr.0, b)) read
    ∙ ap (λ r. r >>= λ b. parsed (h, b)) (read_body-HasLength max_alloc h body rest sized)
