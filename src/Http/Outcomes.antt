-- ===== src/Http/Outcomes.antt =====
-- kwikhttp/protocol.go: the parsers end on every input, and one of their ends is a panic.
use kwik.Prelude.{
  ℕ, zero, suc, ◌<◌, ◌^◌, ◌≡◌, ◌≢◌, refl, ap, ◌∙◌, List, [], ◌∷◌, ◌++◌, Bool, true, false, Option,
  none, some, ◌==◌, ltb, if◌then◌else◌, if_true, if_false, Bool-cases, Option-cases, inl, inr,
  arith, length, codes,
}
use kwik.Http.Text.{Text, same, trim_space, split_n, read_string, is_space}
use kwik.Http.Numerals.{ℤ, pos, negsuc, itoa, digits, atoi, atoi-itoa}
use kwik.Http.Headers.{Headers, get}
use kwik.Http.Messages.{serialize_headers, start_line, end_of_line}
use kwik.Http.Parse.{
  HttpResult, HttpError, parsed, fails, panic, stuck, ◌>>=◌, read_full, read_sized, read_body,
  read_headers, on_line, read_rest, add_line, parse_http_request, parse_request_line,
  parse_request_parts, request_of, has_three, parse_http_response, parse_status_line,
  parse_response_parts, parse_status,
}
use kwik.Http.Rebuild.{pairs, IsMap, add_pairs-pairs}
use kwik.Http.RoundTrip.{
  AreFields, lines, length-lines, read_headers-lines, serialize_headers-lines, same-digits,
}
use kwik.Http.Requests.{IsWord, words, words-IsStart, split_n-words, length-words, solid-Lacks}

-- A line takes one byte at least.
read_string-length :
    (s line rest : Text) → read_string s ≡ some (line, rest) → length rest < length s
unfolding read_string
read_string-length [] line rest h = cc
read_string-length (c ∷ s) line rest h = elim (Bool-cases (c == b'\n')) [
  | inl e ↦
      let found : some (b'\n' ∷ [], s) ≡ some (line, rest) = rw e at h in
      let same_rest : s ≡ rest = cc found in omega (arith, ap (λ (t : Text). length t) same_rest)
  | inr e ↦ elim (Option-cases (read_string s)) [
    | inl f ↦ let nothing : none ≡ some (line, rest) = rw (e, f) at h in cc nothing
    | inr ((before, after), f) ↦
        let found : some (c ∷ before, after) ≡ some (line, rest) = rw (e, f) at h in
        let same_rest : after ≡ rest = cc found in
        omega (arith, read_string-length s before after f, ap length same_rest)
  ]
]

read_headers-ne-stuck :
    (fuel : ℕ) (h : Headers) (s : Text) → length s < fuel → read_headers fuel h s ≢ fails stuck
unfolding read_headers on_line
read_headers-ne-stuck zero h s enough e = absurd (omega arith)
read_headers-ne-stuck (suc fuel) h s enough e = elim (Option-cases (read_string s)) [
  | inl f ↦ let gone : fails HttpError.no_header ≡ fails stuck = rw (f, on_line) at e in cc gone
  | inr ((line, rest), f) ↦ elim (Bool-cases (same (trim_space line) [])) [
    | inl g ↦ let gone : parsed (h, rest) ≡ fails stuck = rw (f, g, on_line) at e in cc gone
    | inr g ↦
        read_headers-ne-stuck fuel (add_line (trim_space line) h) rest
          (omega (arith, read_string-length s line rest f)) (rw (f, g, on_line) at e)
  ]
]

-- A result of the code.
abbrev Ends {u} : {A : Type u} → HttpResult A → Type u
Ends r = r ≢ fails stuck

fails-Ends : {A : Type 0} (e : HttpError) → e ≢ stuck → Ends {A = A} (fails e)
fails-Ends e h failed = let same_error : e ≡ stuck = cc in h same_error

module _ {A : Type 0} where
  parsed-Ends : (a : A) → Ends (parsed a)
  parsed-Ends a e = cc

  if-Ends : (b : Bool) (x y : HttpResult A) → Ends x → Ends y → Ends (if b then x else y)
  if-Ends true x y hx hy = hx
  if-Ends false x y hx hy = hy

  >>=-Ends :
      {B : Type 0} (r : HttpResult A) (next : A → HttpResult B)
      → Ends r
      → ((a : A) → Ends (next a))
      → Ends (r >>= next)
  >>=-Ends (fails failure) next h k = fails-Ends failure (λ e. h (ap fails e))
  >>=-Ends (parsed a) next h k = k a

module _ (max_alloc : ℕ) where
  read_full-Ends : (n : ℕ) (s : Text) → Ends (read_full max_alloc n s)
  unfolding read_full
  read_full-Ends n s =
      if-Ends (ltb max_alloc n) _ _ (λ e. cc) (if-Ends (ltb (length s) n) _ _ (λ e. cc) (λ e. cc))

  read_sized-Ends : (o : Option ℤ) (s : Text) → Ends (read_sized max_alloc o s)
  unfolding read_sized
  read_sized-Ends none s = λ e. cc
  read_sized-Ends (some (pos zero)) s = λ e. cc
  read_sized-Ends (some (pos (suc n))) s = read_full-Ends (suc n) s
  read_sized-Ends (some (negsuc n)) s = λ e. cc

  read_body-Ends : (h : Headers) (s : Text) → Ends (read_body max_alloc h s)
  unfolding read_body
  read_body-Ends h s =
      if-Ends (same (get (codes "content-length") h) []) _ _ (parsed-Ends [])
        (read_sized-Ends (atoi (get (codes "content-length") h)) s)

  read_rest-Ends : (s : Text) → Ends (read_rest max_alloc s)
  unfolding read_rest
  read_rest-Ends s =
      >>=-Ends (read_headers (suc (length s)) [] s) _
        (read_headers-ne-stuck (suc (length s)) [] s (omega arith))
        λ hr.
          >>=-Ends (read_body max_alloc hr.0 hr.1) _ (read_body-Ends hr.0 hr.1)
            λ body. parsed-Ends (hr.0, body)

  parse_request_line-Ends : (o : Option (Text × Text)) → Ends (parse_request_line max_alloc o)
  unfolding parse_request_line parse_request_parts
  parse_request_line-Ends none = λ e. cc
  parse_request_line-Ends (some (line, rest)) =
      let parts = split_n (length (trim_space line)) b' ' (trim_space line) in
      if-Ends (has_three max_alloc parts) _ _
        (>>=-Ends (read_rest max_alloc rest) _ (read_rest-Ends rest) λ r. request_of-Ends parts r)
        (λ e. cc)
    where
      request_of-Ends :
          (parts : List Text) (r : Headers × Text) → Ends (request_of max_alloc parts r)
      request_of-Ends (a ∷ b ∷ c ∷ []) (h, body) = λ e. cc
      request_of-Ends [] r = λ e. cc
      request_of-Ends (a ∷ []) r = λ e. cc
      request_of-Ends (a ∷ b ∷ []) r = λ e. cc
      request_of-Ends (a ∷ b ∷ c ∷ d ∷ parts) r = λ e. cc

  parse_status-Ends :
      (version status_text : Text) (code : Option ℤ) (s : Text)
      → Ends (parse_status max_alloc version status_text code s)
  parse_status-Ends version status_text none s = λ e. cc
  parse_status-Ends version status_text (some code) s =
      >>=-Ends (read_rest max_alloc s) _ (read_rest-Ends s) λ r. λ e. cc

  parse_response_parts-Ends :
      (parts : List Text) (s : Text) → Ends (parse_response_parts max_alloc parts s)
  unfolding parse_response_parts
  parse_response_parts-Ends [] s = λ e. cc
  parse_response_parts-Ends (a ∷ []) s = λ e. cc
  parse_response_parts-Ends (a ∷ b ∷ []) s = parse_status-Ends a [] (atoi b) s
  parse_response_parts-Ends (a ∷ b ∷ c ∷ parts) s = parse_status-Ends a c (atoi b) s

  parse_status_line-Ends : (o : Option (Text × Text)) → Ends (parse_status_line max_alloc o)
  unfolding parse_status_line
  parse_status_line-Ends none = λ e. cc
  parse_status_line-Ends (some (line, rest)) =
      parse_response_parts-Ends (split_n 2 b' ' (trim_space line)) rest

  -- On any bytes the two parsers end with a message, an error or a panic of make: the fuel of their
  -- loop over the headers is always enough.
  pub parse_http-ne-stuck :
      (s : Text)
      → (parse_http_request max_alloc s ≢ fails stuck)
        × (parse_http_response max_alloc s ≢ fails stuck)
  unfolding parse_http_request parse_http_response
  parse_http-ne-stuck s =
      (parse_request_line-Ends (read_string s), parse_status_line-Ends (read_string s))

  read_body-oversized :
      (h : Headers) (n : ℕ) (s : Text)
      → get (codes "content-length") h ≡ itoa (pos n)
      → n < 2 ^ 63
      → max_alloc < n
      → read_body max_alloc h s ≡ fails panic
  unfolding read_body read_sized read_full itoa
  read_body-oversized h zero s there short big = absurd (omega arith)
  read_body-oversized h (suc n) s there short big = rw there (
      if_false (same (digits (suc n)) []) _ _ (same-digits (suc n))
      ∙ ap (λ o. read_sized max_alloc o s) (atoi-itoa (pos (suc n)) short)
      ∙ if_true (ltb max_alloc (suc n)) _ _ (ground (arith, big)))

  read_rest-oversized :
      (h : Headers) (n : ℕ) (rest : Text)
      → AreFields (pairs h)
      → IsMap h
      → get (codes "content-length") h ≡ itoa (pos n)
      → n < 2 ^ 63
      → max_alloc < n
      → read_rest max_alloc (serialize_headers h ++ (end_of_line ++ rest)) ≡ fails panic
  unfolding read_rest
  read_rest-oversized h n rest fields keys there short big =
      let s : Text = lines (pairs h) ++ (end_of_line ++ rest) in
      let read : read_headers (suc (length s)) [] s ≡ parsed (h, rest) =
        read_headers-lines (suc (length s)) (pairs h) [] rest
          (omega (arith, length-lines (pairs h) (end_of_line ++ rest))) fields
        ∙ ap (λ x. parsed (x, rest)) (add_pairs-pairs [] h keys) in
      ap (λ x. read_rest max_alloc (x ++ (end_of_line ++ rest))) (serialize_headers-lines h)
      ∙ ap (λ r. r >>= λ hr. read_body max_alloc hr.0 hr.1 >>= λ b. parsed (hr.0, b)) read
      ∙ ap (λ r. r >>= λ b. parsed (h, b)) (read_body-oversized h n rest there short big)

  -- A request line and well-formed headers whose content-length is a number beyond what make can
  -- allocate let ParseHTTPRequest panic, whether or not any byte of the body follows.
  parse_http_request-oversized :
      (method url version : Text) (h : Headers) (n : ℕ) (rest : Text)
      → IsWord method
      → IsWord url
      → IsWord version
      → AreFields (pairs h)
      → IsMap h
      → get (codes "content-length") h ≡ itoa (pos n)
      → n < 2 ^ 63
      → max_alloc < n
      → parse_http_request max_alloc
          (start_line method url version ++ (serialize_headers h ++ (end_of_line ++ rest)))
        ≡ fails panic
  unfolding parse_http_request parse_request_line parse_request_parts read_rest read_body read_sized
      read_full itoa same is_space
  parse_http_request-oversized method url version h zero rest hm hu hv fields keys there short big =
      absurd (omega arith)
  parse_http_request-oversized method url version h (suc n) rest hm hu hv fields keys there short
        big =
      let tail : Text = serialize_headers h ++ (end_of_line ++ rest) in
      let line : Text = words method url version in
      let start = words-IsStart method url version hm hu hv in
      let parts : split_n (length line) b' ' line ≡ method ∷ url ∷ version ∷ [] =
        split_n-words (length line) method url version (length-words method url version)
          (solid-Lacks b' ' method refl hm.solid) (solid-Lacks b' ' url refl hu.solid)
          (solid-Lacks b' ' version refl hv.solid) in
      ap (parse_request_line max_alloc) (start.read tail)
      ∙ ap (λ t. parse_request_parts max_alloc (split_n (length t) b' ' t) tail) start.trimmed
      ∙ ap (λ ps. parse_request_parts max_alloc ps tail) parts
      ∙ ap (λ x. x >>= request_of max_alloc (method ∷ url ∷ version ∷ []))
          (read_rest-oversized h (suc n) rest fields keys there short big)
