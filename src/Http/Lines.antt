-- ===== src/Http/Lines.antt =====
-- kwikhttp/protocol.go: one line of a message, as it is written and read back.
use kwik.Prelude.{
  ℕ, ◌≡◌, ◌≢◌, refl, sym, ap, ◌∙◌, [], ◌∷◌, ◌++◌, append_assoc, false, some, ◌==◌, if_true,
  if_false, All, All-append, arith,
}
use kwik.Http.Text.{
  Text, is_space, trim_left, trim_right, trim_space, put_trimmed, cut_at, into_first, read_string,
  same,
}
use kwik.Http.Headers.{Headers, add}
use kwik.Http.Messages.{end_of_line, header_line}
use kwik.Http.Parse.{add_line, add_cut}

-- No byte is `b`.
abbrev pub Lacks : ℕ → Text → Type 0
Lacks b = All (λ c. (c == b) ≡ false)

-- No space at either end.
abbrev pub HeadIsSolid : Text → Type 0
HeadIsSolid [] = Unit
HeadIsSolid (c ∷ s) = is_space c ≡ false

pub record IsTrimmed (s : Text) : Type 0 where
  pub head : HeadIsSolid s
  pub tail : trim_right s ≡ s

pub read_string-line :
    (s rest : Text)
    → Lacks b'\n' s
    → read_string (s ++ (b'\n' ∷ rest)) ≡ some (s ++ (b'\n' ∷ []), rest)
unfolding read_string
read_string-line [] rest h = refl
read_string-line (c ∷ s) rest h =
    if_false (c == b'\n') _ _ h.0 ∙ ap (into_first c) (read_string-line s rest h.1)

pub cut_at-line :
    (sep : ℕ) (s rest : Text) → Lacks sep s → cut_at sep (s ++ (sep ∷ rest)) ≡ some (s, rest)
unfolding cut_at
cut_at-line sep [] rest h = if_true (sep == sep) _ _ (ground arith)
cut_at-line sep (c ∷ s) rest h =
    if_false (c == sep) _ _ h.0 ∙ ap (into_first c) (cut_at-line sep s rest h.1)

trim_left-solid : (s : Text) → HeadIsSolid s → trim_left s ≡ s
unfolding trim_left
trim_left-solid [] h = refl
trim_left-solid (c ∷ s) h = if_false (is_space c) _ _ h

pub trim_space-IsTrimmed : (s : Text) → IsTrimmed s → trim_space s ≡ s
unfolding trim_space
trim_space-IsTrimmed s t = ap trim_right (trim_left-solid s t.head) ∙ t.tail

-- Spaces at the end go.
trim_right-spaces :
    (s blank : Text) → trim_right blank ≡ [] → trim_right (s ++ blank) ≡ trim_right s
unfolding trim_right
trim_right-spaces [] blank h = h
trim_right-spaces (c ∷ s) blank h = ap (put_trimmed c) (trim_right-spaces s blank h)

-- What is in front of a text that does not vanish stays.
put_trimmed-behind : (c d : ℕ) (s t : Text) → put_trimmed c (s ++ (d ∷ t)) ≡ c ∷ (s ++ (d ∷ t))
put_trimmed-behind c d [] t = refl
put_trimmed-behind c d (e ∷ s) t = refl

pub trim_right-behind :
    (s t : Text) (d : ℕ) (u : Text) → trim_right t ≡ d ∷ u → trim_right (s ++ t) ≡ s ++ (d ∷ u)
unfolding trim_right
trim_right-behind [] t d u h = h
trim_right-behind (c ∷ s) t d u h =
    ap (put_trimmed c) (trim_right-behind s t d u h) ∙ put_trimmed-behind c d s u

-- A line with its end.
pub trim_space-line :
    (c : ℕ) (s : Text)
    → is_space c ≡ false
    → trim_space ((c ∷ s) ++ end_of_line) ≡ trim_right (c ∷ s)
unfolding trim_space trim_left is_space trim_right
trim_space-line c s h =
    ap trim_right (trim_left-solid ((c ∷ s) ++ end_of_line) h)
    ∙ trim_right-spaces (c ∷ s) end_of_line refl

-- A header that can be written: the key is not empty and has no colon, neither has a line feed, and
-- neither has a space at an end.
pub record IsField (key value : Text) : Type 0 where
  pub some_key : key ≢ []
  pub no_colon : Lacks b':' key
  pub key_line : Lacks b'\n' key
  pub key_trimmed : IsTrimmed key
  pub value_line : Lacks b'\n' value
  pub value_trimmed : IsTrimmed value

-- What is left of the value's half of a line.
abbrev value_part : Text → Text
value_part value = put_trimmed b' ' value

trim_space-value_part : (value : Text) → IsTrimmed value → trim_space (value_part value) ≡ value
unfolding trim_space trim_left is_space trim_right
trim_space-value_part [] t = refl
trim_space-value_part (c ∷ value) t = ap trim_right (trim_left-solid (c ∷ value) t.head) ∙ t.tail

colon_kept : (s : Text) → put_trimmed b':' s ≡ b':' ∷ s
unfolding is_space
colon_kept [] = refl
colon_kept (c ∷ s) = refl

trim_right-field :
    (key value : Text)
    → IsTrimmed value
    → trim_right (key ++ (b':' ∷ b' ' ∷ value)) ≡ key ++ (b':' ∷ value_part value)
unfolding trim_right is_space
trim_right-field key value t =
    trim_right-behind key (b':' ∷ b' ' ∷ value) b':' (value_part value)
      (ap (λ v. put_trimmed b':' (put_trimmed b' ' v)) t.tail ∙ colon_kept (value_part value))

-- A header without the end of its line.
abbrev pub field : Text → Text → Text
field key value = key ++ (b':' ∷ b' ' ∷ value)

pub header_line-field : (key value : Text) → header_line key value ≡ field key value ++ end_of_line
header_line-field key value = sym (append_assoc key (b':' ∷ b' ' ∷ value) end_of_line)

trim_space-field :
    (key value : Text)
    → IsField key value
    → trim_space (field key value ++ end_of_line) ≡ key ++ (b':' ∷ value_part value)
trim_space-field [] value f = absurd (f.some_key refl)
trim_space-field (c ∷ key) value f =
    trim_space-line c (key ++ (b':' ∷ b' ' ∷ value)) f.key_trimmed.head
    ∙ trim_right-field (c ∷ key) value f.value_trimmed

-- A header that has been written is added when it is read.
pub add_line-field :
    (key value : Text) (h : Headers)
    → IsField key value
    → add_line (trim_space (field key value ++ end_of_line)) h ≡ add key value h
unfolding add_line
add_line-field key value h f =
    ap (λ s. add_cut (cut_at b':' s) h) (trim_space-field key value f)
    ∙ ap (λ o. add_cut o h) (cut_at-line b':' key (value_part value) f.no_colon)
    ∙ ap (λ k. add k (trim_space (value_part value)) h) (trim_space-IsTrimmed key f.key_trimmed)
    ∙ ap (λ v. add key v h) (trim_space-value_part value f.value_trimmed)

-- Its line is not the empty one that ends the headers.
pub field_ne_nil :
    (key value : Text)
    → IsField key value
    → same (trim_space (field key value ++ end_of_line)) [] ≡ false
unfolding same
field_ne_nil [] value f = absurd (f.some_key refl)
field_ne_nil (c ∷ key) value f = ap (λ s. same s []) (trim_space-field (c ∷ key) value f)

pub Lacks-append : (b : ℕ) (s t : Text) → Lacks b s → Lacks b t → Lacks b (s ++ t)
Lacks-append b s t hs ht = All-append (λ c. (c == b) ≡ false) s t hs ht

pub read_string-end :
    (s rest : Text)
    → Lacks b'\n' s
    → read_string ((s ++ end_of_line) ++ rest) ≡ some (s ++ end_of_line, rest)
read_string-end s rest h =
    let line : Text = s ++ (b'\r' ∷ []) in
    let apart : (s ++ end_of_line) ++ rest ≡ line ++ (b'\n' ∷ rest) =
      append_assoc s end_of_line rest ∙ sym (append_assoc s (b'\r' ∷ []) (b'\n' ∷ rest)) in
    ap read_string apart
    ∙ read_string-line line rest (Lacks-append b'\n' s (b'\r' ∷ []) h (ground arith, tt))
    ∙ ap (λ t. some (t, rest)) (append_assoc s (b'\r' ∷ []) (b'\n' ∷ []))

field-Lacks : (key value : Text) → IsField key value → Lacks b'\n' (field key value)
field-Lacks key value f =
    Lacks-append b'\n' key (b':' ∷ b' ' ∷ value) f.key_line
      (ground arith, (ground arith, f.value_line))

pub read_string-field :
    (key value rest : Text)
    → IsField key value
    → read_string (header_line key value ++ rest) ≡ some (field key value ++ end_of_line, rest)
read_string-field key value rest f =
    ap (λ s. read_string (s ++ rest)) (header_line-field key value)
    ∙ read_string-end (field key value) rest (field-Lacks key value f)
