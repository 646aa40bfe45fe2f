-- ===== src/Http/Text.antt =====
-- What kwikhttp/protocol.go uses of the packages strings and bufio, for texts of ASCII bytes.
use kwik.Prelude.{
  ℕ, zero, suc, ◌+◌, List, [], ◌∷◌, Bool, true, false, Option, none, some, ◌==◌, ◌&&◌, ◌||◌, leb,
  if◌then◌else◌,
}

abbrev pub Text : Type 0
Text = List ℕ

-- ==
unfoldable pub same : Text → Text → Bool
same [] [] = true
same [] (d ∷ t) = false
same (c ∷ s) [] = false
same (c ∷ s) (d ∷ t) = (c == d) && same s t

-- '\t', '\n', '\v', '\f', '\r' and ' '
unfoldable pub is_space : ℕ → Bool
is_space c = (c == b' ') || (leb 9 c && leb c 13)

unfoldable pub trim_left : Text → Text
trim_left [] = []
trim_left (c ∷ s) = let rest = trim_left s in if is_space c then rest else c ∷ s

abbrev pub put_trimmed : ℕ → Text → Text
put_trimmed c [] = if is_space c then [] else c ∷ []
put_trimmed c (d ∷ s) = c ∷ d ∷ s

unfoldable pub trim_right : Text → Text
trim_right [] = []
trim_right (c ∷ s) = put_trimmed c (trim_right s)

-- strings.TrimSpace
unfoldable pub trim_space : Text → Text
trim_space s = trim_right (trim_left s)

unfoldable pub lower_byte : ℕ → ℕ
lower_byte c = if leb b'A' c && leb c b'Z' then c + 32 else c

-- strings.ToLower
unfoldable pub to_lower : Text → Text
to_lower [] = []
to_lower (c ∷ s) = lower_byte c ∷ to_lower s

abbrev pub extend_first : ℕ → List Text → List Text
extend_first c [] = (c ∷ []) ∷ []
extend_first c (part ∷ parts) = (c ∷ part) ∷ parts

-- strings.SplitN with a separator of one byte, at most `cuts` times, or strings.Split where `cuts`
-- is at least the length.
unfoldable pub split_n : ℕ → ℕ → Text → List Text
split_n cuts sep [] = [] ∷ []
split_n zero sep (c ∷ s) = (c ∷ s) ∷ []
split_n (suc cuts) sep (c ∷ s) =
    let cut = [] ∷ split_n cuts sep s in
    let on = extend_first c (split_n (suc cuts) sep s) in if c == sep then cut else on

abbrev pub into_first : ℕ → Option (Text × Text) → Option (Text × Text)
into_first c none = none
into_first c (some (before, after)) = some (c ∷ before, after)

-- strings.Index of one byte, as what stands before and behind it.
unfoldable pub cut_at : ℕ → Text → Option (Text × Text)
cut_at sep [] = none
cut_at sep (c ∷ s) =
    let rest = into_first c (cut_at sep s) in if c == sep then some ([], s) else rest

-- ReadString('\n') of a bufio.Reader: the line with its end, and what is left; `none` is an error.
unfoldable pub read_string : Text → Option (Text × Text)
read_string [] = none
read_string (c ∷ s) =
    let rest = into_first c (read_string s) in if c == b'\n' then some (b'\n' ∷ [], s) else rest
