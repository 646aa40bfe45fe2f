-- ===== src/Http/Requests.antt =====
-- kwikhttp/protocol.go: the start lines of requests and responses.
use kwik.Prelude.{
  ℕ, zero, suc, ◌≤◌, ◌≡◌, ◌≢◌, refl, sym, ap, ◌∙◌, [], ◌∷◌, ◌++◌, append_assoc, true, false, some,
  ◌==◌, if_false, Bool-cases, inl, inr, All, arith, length, length-append,
}
use kwik.Http.Text.{
  Text, is_space, trim_right, trim_space, put_trimmed, split_n, extend_first, read_string,
}
use kwik.Http.Messages.{HttpRequest, serialize_request, serialize_headers, start_line, end_of_line}
use kwik.Http.Parse.{
  parsed, ◌>>=◌, parse_http_request, parse_request_line, parse_request_parts, request_of,
}
use kwik.Http.Lines.{Lacks, Lacks-append, trim_space-line, trim_right-behind, read_string-end}
use kwik.Http.Rebuild.{pairs, IsMap}
use kwik.Http.RoundTrip.{AreFields, HasLength, read_rest-serialize_headers}

-- A word of a start line.
pub record IsWord (s : Text) : Type 0 where
  pub some_byte : s ≢ []
  pub solid : All (λ c. is_space c ≡ false) s

pub solid-Lacks :
    (b : ℕ) (s : Text) → is_space b ≡ true → All (λ c. is_space c ≡ false) s → Lacks b s
solid-Lacks b [] space h = tt
solid-Lacks b (c ∷ s) space h = (
  elim (Bool-cases (c == b)) [
    | inl e ↦
        let same_byte : c ≡ b = ground (arith, e) in
        let clash : true ≡ false = sym space ∙ ap is_space (sym same_byte) ∙ h.0 in cc clash
    | inr e ↦ e
  ],
  solid-Lacks b s space h.1,
)

put_trimmed-solid : (c : ℕ) (s : Text) → is_space c ≡ false → put_trimmed c s ≡ c ∷ s
put_trimmed-solid c [] h = if_false (is_space c) _ _ h
put_trimmed-solid c (d ∷ s) h = refl

trim_right-solid : (s : Text) → All (λ c. is_space c ≡ false) s → trim_right s ≡ s
unfolding trim_right
trim_right-solid [] h = refl
trim_right-solid (c ∷ s) h = ap (put_trimmed c) (trim_right-solid s h.1) ∙ put_trimmed-solid c s h.0

-- A start line without its end.
abbrev pub words : Text → Text → Text → Text
words a b c = a ++ (b' ' ∷ (b ++ (b' ' ∷ c)))

pub start_line-words : (a b c : Text) → start_line a b c ≡ words a b c ++ end_of_line
start_line-words a b c = sym (
    append_assoc a (b' ' ∷ (b ++ (b' ' ∷ c))) end_of_line
    ∙ ap (λ s. a ++ (b' ' ∷ s)) (append_assoc b (b' ' ∷ c) end_of_line))

pub trim_right-words :
    (a b : Text) (d : ℕ) (c : Text)
    → trim_right (d ∷ c) ≡ d ∷ c
    → trim_right (words a b (d ∷ c)) ≡ words a b (d ∷ c)
trim_right-words a b d c h =
    let tail : Text = b ++ (b' ' ∷ d ∷ c) in
    let first : trim_right (b' ' ∷ d ∷ c) ≡ b' ' ∷ d ∷ c =
      trim_right-behind (b' ' ∷ []) (d ∷ c) d c h in
    let second : trim_right (b' ' ∷ tail) ≡ b' ' ∷ tail =
      trim_right-behind (b' ' ∷ b) (b' ' ∷ d ∷ c) b' ' (d ∷ c) first in
    trim_right-behind a (b' ' ∷ tail) b' ' tail second

pub split_n-word :
    (cuts : ℕ) (a rest : Text)
    → Lacks b' ' a
    → split_n (suc cuts) b' ' (a ++ (b' ' ∷ rest)) ≡ a ∷ split_n cuts b' ' rest
unfolding split_n
split_n-word cuts [] rest h = refl
split_n-word cuts (c ∷ a) rest h =
    if_false (c == b' ') _ _ h.0 ∙ ap (extend_first c) (split_n-word cuts a rest h.1)

split_n-last : (cuts : ℕ) (a : Text) → Lacks b' ' a → split_n cuts b' ' a ≡ a ∷ []
unfolding split_n
split_n-last cuts [] h = refl
split_n-last zero (c ∷ a) h = refl
split_n-last (suc cuts) (c ∷ a) h =
    if_false (c == b' ') _ _ h.0 ∙ ap (extend_first c) (split_n-last (suc cuts) a h.1)

pub split_n-words :
    (cuts : ℕ) (a b c : Text)
    → 2 ≤ cuts
    → Lacks b' ' a
    → Lacks b' ' b
    → Lacks b' ' c
    → split_n cuts b' ' (words a b c) ≡ a ∷ b ∷ c ∷ []
split_n-words zero a b c h la lb lc = absurd (omega arith)
split_n-words (suc zero) a b c h la lb lc = absurd (omega arith)
split_n-words (suc (suc cuts)) a b c h la lb lc =
    split_n-word (suc cuts) a (b ++ (b' ' ∷ c)) la
    ∙ ap (◌∷◌ a) (split_n-word cuts b c lb)
    ∙ ap (λ ps. a ∷ b ∷ ps) (split_n-last cuts c lc)

pub record IsStart (a b c : Text) : Type 0 where
  pub read :
      (rest : Text)
      → read_string (start_line a b c ++ rest) ≡ some (words a b c ++ end_of_line, rest)
  pub trimmed : trim_space (words a b c ++ end_of_line) ≡ words a b c

pub words-Lacks :
    (a b c : Text) → Lacks b'\n' a → Lacks b'\n' b → Lacks b'\n' c → Lacks b'\n' (words a b c)
words-Lacks a b c la lb lc =
    Lacks-append b'\n' a (b' ' ∷ (b ++ (b' ' ∷ c))) la
      (ground arith, Lacks-append b'\n' b (b' ' ∷ c) lb (ground arith, lc))

pub words-IsStart : (a b c : Text) → IsWord a → IsWord b → IsWord c → IsStart a b c
unfolding is_space
words-IsStart [] b c ha hb hc = absurd (ha.some_byte refl)
words-IsStart (x ∷ a) b [] ha hb hc = absurd (hc.some_byte refl)
words-IsStart (x ∷ a) b (z ∷ c) ha hb hc =
    let no_line : Lacks b'\n' (words (x ∷ a) b (z ∷ c)) =
      words-Lacks (x ∷ a) b (z ∷ c) (solid-Lacks b'\n' (x ∷ a) refl ha.solid)
        (solid-Lacks b'\n' b refl hb.solid) (solid-Lacks b'\n' (z ∷ c) refl hc.solid) in
    record {
      read = λ rest.
          ap (λ s. read_string (s ++ rest)) (start_line-words (x ∷ a) b (z ∷ c))
          ∙ read_string-end (words (x ∷ a) b (z ∷ c)) rest no_line;
      trimmed =
          trim_space-line x (a ++ (b' ' ∷ (b ++ (b' ' ∷ z ∷ c)))) ha.solid.0
          ∙ trim_right-words (x ∷ a) b z c (trim_right-solid (z ∷ c) hc.solid);
    }

pub length-words : (a b c : Text) → 2 ≤ length (words a b c)
length-words a b c =
    omega (arith, length-append a (b' ' ∷ (b ++ (b' ' ∷ c))), length-append b (b' ' ∷ c))

-- A request that SerializeHTTPRequest writes in a form that can be read.
pub record IsRequest (max_alloc : ℕ) (r : HttpRequest) : Type 0 where
  pub method_word : IsWord r.method
  pub url_word : IsWord r.url
  pub version_word : IsWord r.version
  pub fields : AreFields (pairs r.headers)
  pub keys : IsMap r.headers
  pub sized : HasLength max_alloc r.headers r.body
  pub local : r.remote_addr ≡ []

-- Let the method, the URL and the version of a request have no spaces and not be empty, let its
-- headers be a map of keys in lower case, with values, each a field without line feeds and without
-- spaces at its ends, the key not empty and without a colon, and let the header content-length be
-- the length of the body, or missing when there is no body. Then ParseHTTPRequest reads the request
-- back from what SerializeHTTPRequest writes, whatever follows it, if the body can be allocated.
pub parse_http_request-serialize_request :
    (max_alloc : ℕ) (r : HttpRequest) (rest : Text)
    → IsRequest max_alloc r
    → parse_http_request max_alloc (serialize_request r ++ rest) ≡ parsed r
unfolding parse_http_request parse_request_line parse_request_parts serialize_request is_space
parse_http_request-serialize_request max_alloc r rest q =
    let tail : Text = serialize_headers r.headers ++ (end_of_line ++ (r.body ++ rest)) in
    let line : Text = words r.method r.url r.version in
    let start = words-IsStart r.method r.url r.version q.method_word q.url_word q.version_word in
    let apart : serialize_request r ++ rest ≡ start_line r.method r.url r.version ++ tail =
      append_assoc (start_line r.method r.url r.version) _ rest
      ∙ ap (◌++◌ (start_line r.method r.url r.version))
          (append_assoc (serialize_headers r.headers) (end_of_line ++ r.body) rest) in
    let parts : split_n (length line) b' ' line ≡ r.method ∷ r.url ∷ r.version ∷ [] =
      split_n-words (length line) r.method r.url r.version (length-words r.method r.url r.version)
        (solid-Lacks b' ' r.method refl q.method_word.solid)
        (solid-Lacks b' ' r.url refl q.url_word.solid)
        (solid-Lacks b' ' r.version refl q.version_word.solid) in
    ap (parse_http_request max_alloc) apart
    ∙ ap (parse_request_line max_alloc) (start.read tail)
    ∙ ap (λ t. parse_request_parts max_alloc (split_n (length t) b' ' t) tail) start.trimmed
    ∙ ap (λ ps. parse_request_parts max_alloc ps tail) parts
    ∙ ap (λ x. x >>= request_of max_alloc (r.method ∷ r.url ∷ r.version ∷ []))
        (read_rest-serialize_headers max_alloc r.headers r.body rest q.fields q.keys q.sized)
    ∙ ap (λ a. parsed (record r { remote_addr = a })) (sym q.local)
