-- ===== src/Http/Replies.antt =====
-- kwikhttp/server.go: what becomes of a response of the server at ParseHTTPResponse.
use kwik.Prelude.{
  ℕ, suc, ◌≡◌, refl, sym, ap, ◌∙◌, List, [], ◌∷◌, ◌++◌, append_assoc, Bool-cases, inl, inr, Bool,
  true, false, All, ◌==◌, if◌then◌else◌, codes,
}
use kwik.Http.Text.{Text, is_space, trim_left, trim_right, trim_space, split_n, read_string}
use kwik.Http.Numerals.{ℤ, pos, negsuc, itoa, digits, digits-StartsWithDigit, atoi, magnitude, scan}
use kwik.Http.Messages.{
  HttpResponse, serialize_response, serialize_headers, start_line, end_of_line, status_texts,
  text_in, get_status_text,
}
use kwik.Http.Parse.{HttpError, fails, parse_http_response, parse_status_line, parse_response_parts}
use kwik.Http.Lines.{Lacks, trim_space-line, trim_right-behind, read_string-end}
use kwik.Http.Requests.{solid-Lacks, words, words-Lacks, start_line-words, split_n-word}
use kwik.Http.Responses.{IsSolid, itoa-IsSolid}
use kwik.Http.Server.{HttpResponseWriter, get_response}

abbrev lacks : ℕ → Text → Bool
lacks b [] = true
lacks b (c ∷ s) = let rest = lacks b s in if c == b then false else rest

lacks-Lacks : (b : ℕ) (s : Text) → lacks b s ≡ true → Lacks b s
lacks-Lacks b [] h = tt
lacks-Lacks b (c ∷ s) h = elim (Bool-cases (c == b)) [
  | inl e ↦ let gone : false ≡ true = rw e at h in cc gone
  | inr e ↦ (e, lacks-Lacks b s (rw e at h))
]

itoa-first : (i : ℤ) → (c : ℕ) × (s : Text) × (itoa i ≡ c ∷ s)
unfolding itoa
itoa-first (pos n) = let d = digits-StartsWithDigit n in (d.first, d.rest, d.parts)
itoa-first (negsuc n) = (b'-', digits (suc n), refl)

module _ (max_alloc : ℕ) where
  -- A status text whose first word is no number.
  record IsNoCode (t : Text) : Type 0 where
    pub no_line : Lacks b'\n' t
    pub tail : trim_right (b' ' ∷ t) ≡ b' ' ∷ t
    pub unread :
        (code s : Text)
        → parse_response_parts max_alloc (code ∷ split_n 1 b' ' t) s
          ≡ fails HttpError.invalid_status_code

  no_code :
      (t : Text)
      → lacks b'\n' t ≡ true
      → trim_right (b' ' ∷ t) ≡ b' ' ∷ t
      → ((code s : Text)
          → parse_response_parts max_alloc (code ∷ split_n 1 b' ' t) s
            ≡ fails HttpError.invalid_status_code)
      → IsNoCode t
  no_code t h tail unread = record { no_line = lacks-Lacks b'\n' t h; tail = tail; unread = unread }

  unknown-IsNoCode : IsNoCode (codes "Unknown")
  unfolding trim_right is_space split_n parse_response_parts atoi magnitude scan
  unknown-IsNoCode = no_code (codes "Unknown") refl refl (λ code s. refl)

  texts-AreNoCodes : All (λ (entry : ℕ × Text). IsNoCode entry.1) status_texts
  unfolding trim_right is_space split_n parse_response_parts atoi magnitude scan
  texts-AreNoCodes = (
    no_code (codes "OK") refl refl (λ code s. refl),
    (
      no_code (codes "Created") refl refl (λ code s. refl),
      (
        no_code (codes "Accepted") refl refl (λ code s. refl),
        (
          no_code (codes "No Content") refl refl (λ code s. refl),
          (
            no_code (codes "Moved Permanently") refl refl (λ code s. refl),
            (
              no_code (codes "Found") refl refl (λ code s. refl),
              (
                no_code (codes "Not Modified") refl refl (λ code s. refl),
                (
                  no_code (codes "Bad Request") refl refl (λ code s. refl),
                  (
                    no_code (codes "Unauthorized") refl refl (λ code s. refl),
                    (
                      no_code (codes "Forbidden") refl refl (λ code s. refl),
                      (
                        no_code (codes "Not Found") refl refl (λ code s. refl),
                        (
                          no_code (codes "Method Not Allowed") refl refl (λ code s. refl),
                          (
                            no_code (codes "Internal Server Error") refl refl (λ code s. refl),
                            (
                              no_code (codes "Not Implemented") refl refl (λ code s. refl),
                              (
                                no_code (codes "Bad Gateway") refl refl (λ code s. refl),
                                (
                                  no_code (codes "Service Unavailable") refl refl (λ code s. refl),
                                  tt,
                                ),
                              ),
                            ),
                          ),
                        ),
                      ),
                    ),
                  ),
                ),
              ),
            ),
          ),
        ),
      ),
    ),
  )

  text_in-IsNoCode :
      (texts : List (ℕ × Text)) (code : ℕ)
      → All (λ entry. IsNoCode entry.1) texts
      → IsNoCode (text_in texts code)
  text_in-IsNoCode [] code h = unknown-IsNoCode
  text_in-IsNoCode (entry ∷ texts) code h = elim (Bool-cases (entry.0 == code)) [
    | inl e ↦ rw e h.0
    | inr e ↦ rw e (text_in-IsNoCode texts code h.1)
  ]

  get_status_text-IsNoCode : (code : ℤ) → IsNoCode (get_status_text code)
  unfolding get_status_text
  get_status_text-IsNoCode (pos code) = text_in-IsNoCode status_texts code texts-AreNoCodes
  get_status_text-IsNoCode (negsuc code) = unknown-IsNoCode

  trim_space-versionless :
      (code text : Text) (c : ℕ) (s : Text)
      → code ≡ c ∷ s
      → is_space c ≡ false
      → trim_right (b' ' ∷ text) ≡ b' ' ∷ text
      → trim_space (words [] code text ++ end_of_line) ≡ code ++ (b' ' ∷ text)
  unfolding trim_space trim_left is_space
  trim_space-versionless code text c s shape solid tail =
      ap (λ x. trim_space ((x ++ (b' ' ∷ text)) ++ end_of_line)) shape
      ∙ trim_space-line c (s ++ (b' ' ∷ text)) solid
      ∙ trim_right-behind (c ∷ s) (b' ' ∷ text) b' ' text tail
      ∙ ap (λ x. x ++ (b' ' ∷ text)) (sym shape)

  -- What a handler has made of the writer never reaches ParseHTTPResponse as a response: GetResponse
  -- sets no version, so that the status line begins with a space, its code is taken for the
  -- version, and the first word of its text is refused as a status code, whatever follows.
  pub parse_http_response-get_response :
      (w : HttpResponseWriter) (rest : Text)
      → parse_http_response max_alloc (serialize_response (get_response w).0 ++ rest)
        ≡ fails HttpError.invalid_status_code
  unfolding parse_http_response parse_status_line serialize_response get_response is_space
  parse_http_response-get_response w rest =
      let r : HttpResponse = (get_response w).0 in
      let code : Text = itoa w.status_code in
      let text : Text = get_status_text w.status_code in
      let q = get_status_text-IsNoCode w.status_code in
      let (c, s, shape) = itoa-first w.status_code in
      let solid : IsSolid (c ∷ s) = rw shape at (itoa-IsSolid w.status_code) in
      let line : Text = words [] code text in
      let tail : Text = serialize_headers r.headers ++ (end_of_line ++ (r.body ++ rest)) in
      let no_line : Lacks b'\n' line =
        words-Lacks [] code text tt (solid-Lacks b'\n' code refl (itoa-IsSolid w.status_code))
          q.no_line in
      ap (parse_http_response max_alloc) (
        append_assoc (start_line [] code text) _ rest
        ∙ ap (◌++◌ (start_line [] code text))
            (append_assoc (serialize_headers r.headers) (end_of_line ++ r.body) rest))
      ∙ ap (parse_status_line max_alloc) (
          ap (λ s. read_string (s ++ tail)) (start_line-words [] code text)
          ∙ read_string-end line tail no_line)
      ∙ ap (λ t. parse_response_parts max_alloc (split_n 2 b' ' t) tail)
          (trim_space-versionless code text c s shape solid.0 q.tail)
      ∙ ap (λ ps. parse_response_parts max_alloc ps tail)
          (split_n-word 1 code text (solid-Lacks b' ' code refl (itoa-IsSolid w.status_code)))
      ∙ q.unread code tail
