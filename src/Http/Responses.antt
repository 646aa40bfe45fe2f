-- ===== src/Http/Responses.antt =====
-- kwikhttp/protocol.go: responses, whose status text may have spaces.
use kwik.Prelude.{
  ℕ, zero, suc, ◌+◌, ◌%◌, ◌/◌, ◌≡◌, ◌≢◌, refl, ap, ◌∙◌, [], ◌∷◌, ◌++◌, append_assoc, Bool-cases,
  inl, inr, false, some, All, arith, ltb,
}
use kwik.Http.Text.{Text, is_space, trim_right, trim_space, split_n, read_string}
use kwik.Http.Numerals.{ℤ, pos, negsuc, emit, digits, itoa, IsInt, atoi-itoa}
use kwik.Http.Messages.{
  HttpResponse, serialize_response, serialize_headers, start_line, end_of_line,
}
use kwik.Http.Parse.{
  parsed, ◌>>=◌, parse_http_response, parse_status_line, parse_response_parts, parse_status,
  response_of,
}
use kwik.Http.Lines.{Lacks, trim_space-line, read_string-end}
use kwik.Http.Rebuild.{pairs, IsMap}
use kwik.Http.RoundTrip.{AreFields, HasLength, read_rest-serialize_headers}
use kwik.Http.Requests.{
  IsWord, solid-Lacks, words, start_line-words, trim_right-words, split_n-word, words-Lacks,
}

abbrev pub IsSolid : Text → Type 0
IsSolid = All (λ c. is_space c ≡ false)

emit-IsSolid : (rounds n : ℕ) (out : Text) → IsSolid out → IsSolid (emit rounds n out)
unfolding emit is_space
emit-IsSolid zero n out h = h
emit-IsSolid (suc rounds) n out h = elim (Bool-cases (ltb n 10)) [
  | inl e ↦ rw e (ground (arith, e), h)
  | inr e ↦ rw e (emit-IsSolid rounds (n / 10) ((b'0' + n % 10) ∷ out) (ground arith, h))
]

pub itoa-IsSolid : (i : ℤ) → IsSolid (itoa i)
unfolding itoa digits is_space
itoa-IsSolid (pos n) = emit-IsSolid 20 n [] tt
itoa-IsSolid (negsuc n) = (refl, emit-IsSolid 20 (suc n) [] tt)

-- The last part of a split is left as it is.
split_n-rest : (s : Text) → split_n 0 b' ' s ≡ s ∷ []
unfolding split_n
split_n-rest [] = refl
split_n-rest (c ∷ s) = refl

split_n-status :
    (a b c : Text) → Lacks b' ' a → Lacks b' ' b → split_n 2 b' ' (words a b c) ≡ a ∷ b ∷ c ∷ []
split_n-status a b c la lb =
    split_n-word 1 a (b ++ (b' ' ∷ c)) la
    ∙ ap (◌∷◌ a) (split_n-word 0 b c lb)
    ∙ ap (λ ps. a ∷ b ∷ ps) (split_n-rest c)

-- A status text: one byte at least, no line feed, and no space at its end.
pub record IsStatusText (s : Text) : Type 0 where
  pub some_byte : s ≢ []
  pub no_line : Lacks b'\n' s
  pub tail : trim_right s ≡ s

trim_space-status :
    (a b c : Text)
    → IsWord a
    → IsStatusText c
    → trim_space (words a b c ++ end_of_line) ≡ words a b c
trim_space-status [] b c ha hc = absurd (ha.some_byte refl)
trim_space-status (x ∷ a) b [] ha hc = absurd (hc.some_byte refl)
trim_space-status (x ∷ a) b (z ∷ c) ha hc =
    trim_space-line x (a ++ (b' ' ∷ (b ++ (b' ' ∷ z ∷ c)))) ha.solid.0
    ∙ trim_right-words (x ∷ a) b z c hc.tail

-- A response that SerializeHTTPResponse writes in a form that can be read.
pub record IsResponse (max_alloc : ℕ) (r : HttpResponse) : Type 0 where
  pub version_word : IsWord r.version
  pub code_int : IsInt r.status_code
  pub text_line : IsStatusText r.status_text
  pub fields : AreFields (pairs r.headers)
  pub keys : IsMap r.headers
  pub sized : HasLength max_alloc r.headers r.body

-- Let the version of a response have no spaces and not be empty, let its status text not be empty,
-- with no line feed and no space at its end, and let its headers and its body be as for a request.
-- Then ParseHTTPResponse reads the response back from what SerializeHTTPResponse writes, whatever
-- int its status code is and whatever follows it, if the body can be allocated.
pub parse_http_response-serialize_response :
    (max_alloc : ℕ) (r : HttpResponse) (rest : Text)
    → IsResponse max_alloc r
    → parse_http_response max_alloc (serialize_response r ++ rest) ≡ parsed r
unfolding parse_http_response parse_status_line parse_response_parts serialize_response is_space
parse_http_response-serialize_response max_alloc r rest q =
    let code : Text = itoa r.status_code in
    let tail : Text = serialize_headers r.headers ++ (end_of_line ++ (r.body ++ rest)) in
    let line : Text = words r.version code r.status_text in
    let no_line : Lacks b'\n' line =
      words-Lacks r.version code r.status_text
        (solid-Lacks b'\n' r.version refl q.version_word.solid)
        (solid-Lacks b'\n' code refl (itoa-IsSolid r.status_code)) q.text_line.no_line in
    let apart : serialize_response r ++ rest ≡ start_line r.version code r.status_text ++ tail =
      append_assoc (start_line r.version code r.status_text) _ rest
      ∙ ap (◌++◌ (start_line r.version code r.status_text))
          (append_assoc (serialize_headers r.headers) (end_of_line ++ r.body) rest) in
    let read : read_string (start_line r.version code r.status_text ++ tail)
        ≡ some (line ++ end_of_line, tail) =
      ap (λ s. read_string (s ++ tail)) (start_line-words r.version code r.status_text)
      ∙ read_string-end line tail no_line in
    ap (parse_http_response max_alloc) apart
    ∙ ap (parse_status_line max_alloc) read
    ∙ ap (λ t. parse_response_parts max_alloc (split_n 2 b' ' t) tail)
        (trim_space-status r.version code r.status_text q.version_word q.text_line)
    ∙ ap (λ ps. parse_response_parts max_alloc ps tail)
        (split_n-status r.version code r.status_text
          (solid-Lacks b' ' r.version refl q.version_word.solid)
          (solid-Lacks b' ' code refl (itoa-IsSolid r.status_code)))
    ∙ ap (λ o. parse_status max_alloc r.version r.status_text o tail)
        (atoi-itoa r.status_code q.code_int)
    ∙ ap (λ x. x >>= λ y. parsed (response_of max_alloc r.version r.status_text r.status_code y))
        (read_rest-serialize_headers max_alloc r.headers r.body rest q.fields q.keys q.sized)
