-- ===== src/Http/Parse.antt =====
-- kwikhttp/protocol.go: how requests and responses are read.
use kwik.Prelude.{
  ℕ, zero, suc, List, [], ◌∷◌, Bool, true, false, Option, none, some, ltb, if◌then◌else◌, length,
  take, codes,
}
use kwik.Http.Text.{Text, same, trim_space, split_n, cut_at, read_string}
use kwik.Http.Numerals.{ℤ, pos, negsuc, atoi}
use kwik.Http.Headers.{Headers, add, get}
use kwik.Http.Messages.{HttpRequest, HttpResponse}

-- The errors of the two parsers; `panic` is that of make, beyond a size `max_alloc`, and `stuck` is
-- no outcome of the code: the fuel ran out.
pub data HttpError : Type 0 where
  no_start_line invalid_start_line invalid_status_code no_header : HttpError
  invalid_content_length no_body panic stuck : HttpError

pub data HttpResult {u} (A : Type u) : Type u where
  fails : HttpError → HttpResult A
  parsed : A → HttpResult A

infixl 5 ◌>>=◌
abbrev pub ◌>>=◌ {u v} :
    {A : Type u} {B : Type v} → HttpResult A → (A → HttpResult B) → HttpResult B
fails e >>= next = fails e
parsed a >>= next = next a

-- One line of the headers: a line without a colon is passed over.
abbrev pub add_cut : Option (Text × Text) → Headers → Headers
add_cut none h = h
add_cut (some (key, value)) h = add (trim_space key) (trim_space value) h

unfoldable pub add_line : Text → Headers → Headers
add_line line h = add_cut (cut_at b':' line) h

-- A round of the loop over the lines of the headers, which an empty line ends; `go_on` is the rest
-- of the loop.
unfoldable pub on_line :
    (Headers → Text → HttpResult (Headers × Text))
    → Headers
    → Option (Text × Text)
    → HttpResult (Headers × Text)
on_line go_on h none = fails no_header
on_line go_on h (some (line, rest)) =
    if same (trim_space line) []
    then parsed (h, rest)
    else go_on (add_line (trim_space line) h) rest

unfoldable pub read_headers : ℕ → Headers → Text → HttpResult (Headers × Text)
unfolding on_line
read_headers zero h s = fails stuck
read_headers (suc fuel) h s = on_line (read_headers fuel) h (read_string s)

module _ (max_alloc : ℕ) where
  -- io.ReadFull into a new slice.
  unfoldable pub read_full : ℕ → Text → HttpResult Text
  read_full n s =
      if ltb max_alloc n
      then fails panic
      else if ltb (length s) n
      then fails no_body
      else parsed (take n s)

  unfoldable pub read_sized : Option ℤ → Text → HttpResult Text
  unfolding read_full
  read_sized none s = fails invalid_content_length
  read_sized (some (pos zero)) s = parsed []
  read_sized (some (pos (suc n))) s = read_full (suc n) s
  read_sized (some (negsuc n)) s = parsed []

  -- The body, by the header content-length.
  unfoldable pub read_body : Headers → Text → HttpResult Text
  unfolding read_sized
  read_body h s =
      let value = get (codes "content-length") h in
      if same value [] then parsed [] else read_sized (atoi value) s

  unfoldable pub read_rest : Text → HttpResult (Headers × Text)
  unfolding read_body read_headers
  read_rest s = do
    (h, rest) ← read_headers (suc (length s)) [] s
    body ← read_body h rest
    parsed (h, body)

  abbrev pub request_of : List Text → Headers × Text → HttpResult HttpRequest
  request_of (method ∷ url ∷ version ∷ []) (h, body) = parsed (record {
    method = method;
    url = url;
    version = version;
    headers = h;
    body = body;
    remote_addr = [];
  })
  request_of _ rest = fails invalid_start_line

  abbrev pub has_three : List Text → Bool
  has_three (a ∷ b ∷ c ∷ []) = true
  has_three _ = false

  unfoldable pub parse_request_parts : List Text → Text → HttpResult HttpRequest
  unfolding read_rest
  parse_request_parts parts s =
      if has_three parts then read_rest s >>= request_of parts else fails invalid_start_line

  unfoldable pub parse_request_line : Option (Text × Text) → HttpResult HttpRequest
  unfolding parse_request_parts
  parse_request_line none = fails no_start_line
  parse_request_line (some (line, rest)) =
      let trimmed = trim_space line in
      parse_request_parts (split_n (length trimmed) b' ' trimmed) rest

  -- ParseHTTPRequest on what the reader gives.
  unfoldable pub parse_http_request : Text → HttpResult HttpRequest
  unfolding parse_request_line
  parse_http_request s = parse_request_line (read_string s)

  abbrev pub response_of : Text → Text → ℤ → Headers × Text → HttpResponse
  response_of version status_text code (h, body) = record {
    version = version;
    status_code = code;
    status_text = status_text;
    headers = h;
    body = body;
  }

  abbrev pub parse_status : Text → Text → Option ℤ → Text → HttpResult HttpResponse
  parse_status version status_text none s = fails invalid_status_code
  parse_status version status_text (some code) s =
      read_rest s >>= λ rest. parsed (response_of version status_text code rest)

  unfoldable pub parse_response_parts : List Text → Text → HttpResult HttpResponse
  unfolding read_rest
  parse_response_parts (version ∷ code ∷ []) s = parse_status version [] (atoi code) s
  parse_response_parts (version ∷ code ∷ status_text ∷ more) s =
      parse_status version status_text (atoi code) s
  parse_response_parts _ s = fails invalid_start_line

  unfoldable pub parse_status_line : Option (Text × Text) → HttpResult HttpResponse
  unfolding parse_response_parts
  parse_status_line none = fails no_start_line
  parse_status_line (some (line, rest)) =
      parse_response_parts (split_n 2 b' ' (trim_space line)) rest

  -- ParseHTTPResponse on what the reader gives.
  unfoldable pub parse_http_response : Text → HttpResult HttpResponse
  unfolding parse_status_line
  parse_http_response s = parse_status_line (read_string s)
