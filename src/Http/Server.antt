-- ===== src/Http/Server.antt =====
-- kwikhttp/server.go: the response writer, the routes and the middleware of HTTPServer, and
-- GetContentType.
use kwik.Prelude.{
  ℕ, List, [], ◌∷◌, ◌++◌, Bool, true, false, Option, none, some, ◌==◌, ◌&&◌, if◌then◌else◌, length,
  codes,
}
use kwik.Http.Text.{Text, same, to_lower}
use kwik.Http.Numerals.{ℤ, pos}
use kwik.Http.Headers.{Headers, add, set, has_header}
use kwik.Http.Messages.{HttpResponse, content_length, with_length, get_status_text}

-- HTTPResponseWriter; the body is what is in the buffer.
pub record HttpResponseWriter : Type 0 where
  pub status_code : ℤ
  pub headers : Headers
  pub body : Text
  pub written : Bool

unfoldable pub new_http_response_writer : HttpResponseWriter
new_http_response_writer = record {
  status_code = pos 200;
  headers = [];
  body = [];
  written = false;
}

unfoldable pub write_header : ℤ → HttpResponseWriter → HttpResponseWriter
write_header code w = if w.written then w else record w { status_code = code }

unfoldable pub set_header : Text → Text → HttpResponseWriter → HttpResponseWriter
set_header key value w = record w { headers = set key value w.headers }

-- Write and WriteString, which have no error.
unfoldable pub write : Text → HttpResponseWriter → ℕ × HttpResponseWriter
write bytes w = (length bytes, record w { body = w.body ++ bytes })

unfoldable pub write_json : Text → HttpResponseWriter → ℕ × HttpResponseWriter
write_json bytes w = write bytes (set_header (codes "Content-Type") (codes "application/json") w)

unfoldable pub copy_values : Text → List Text → Headers → Headers
copy_values key [] h = h
copy_values key (value ∷ values) h = copy_values key values (add key value h)

-- The loop that copies the headers.
unfoldable pub copy_headers : Headers → Headers → Headers
copy_headers [] h = h
copy_headers (entry ∷ es) h = copy_headers es (copy_values entry.0 entry.1 h)

-- GetResponse. A response that is made by hand there has no version.
unfoldable pub get_response : HttpResponseWriter → HttpResponse × HttpResponseWriter
get_response w =
    let copied = copy_headers w.headers [] in
    let response : HttpResponse = record {
      version = [];
      status_code = w.status_code;
      status_text = get_status_text w.status_code;
      headers = if has_header content_length copied then copied else with_length w.body copied;
      body = w.body;
    } in
    (response, record w { written = true })

-- strings.HasPrefix
unfoldable pub has_prefix : Text → Text → Bool
has_prefix s [] = true
has_prefix [] (d ∷ p) = false
has_prefix (c ∷ s) (d ∷ p) = (c == d) && has_prefix s p

abbrev pub behind : ℕ → Option Text → Option Text
behind c none = none
behind c (some s) = some (c ∷ s)

-- strings.TrimSuffix of "*", where strings.HasSuffix holds.
unfoldable pub without_star : Text → Option Text
without_star [] = none
without_star (c ∷ []) = if c == b'*' then some [] else none
without_star (c ∷ d ∷ s) = behind c (without_star (d ∷ s))

abbrev pub matches : Option Text → Text → Bool
matches none path = false
matches (some prefix) path = has_prefix path prefix

module _ {ℓ} {H : Type ℓ} where
  -- `s.handlers[path]`, with the handlers in the order of the iteration.
  unfoldable pub handler_of : Text → List (Text × H) → Option H
  handler_of path [] = none
  handler_of path (route ∷ routes) =
      let rest = handler_of path routes in if same route.0 path then some route.1 else rest

  -- The loop over the patterns with a wildcard.
  unfoldable pub first_match : Text → List (Text × H) → Option H
  first_match path [] = none
  first_match path (route ∷ routes) =
      let rest = first_match path routes in
      if matches (without_star route.0) path then some route.1 else rest

  abbrev pub or_else : Option H → Option H → Option H
  or_else none other = other
  or_else (some h) other = some h

  unfoldable pub find_handler : Text → List (Text × H) → Option H
  find_handler path routes = or_else (handler_of path routes) (first_match path routes)

  -- The loop of applyMiddleware: the last of the stack comes first.
  unfoldable pub apply_middleware : List (H → H) → H → H
  apply_middleware [] handler = handler
  apply_middleware (m ∷ ms) handler = m (apply_middleware ms handler)

unfoldable pub content_type_in : List (Text × Text) → Text → Text
content_type_in [] ext = codes "application/octet-stream"
content_type_in (entry ∷ types) ext =
    let rest = content_type_in types ext in if same entry.0 ext then entry.1 else rest

abbrev pub content_types : List (Text × Text)
content_types =
    (codes ".html", codes "text/html; charset=utf-8")
    ∷ (codes ".htm", codes "text/html; charset=utf-8")
    ∷ (codes ".css", codes "text/css")
    ∷ (codes ".js", codes "application/javascript")
    ∷ (codes ".json", codes "application/json")
    ∷ (codes ".xml", codes "application/xml")
    ∷ (codes ".png", codes "image/png")
    ∷ (codes ".jpg", codes "image/jpeg")
    ∷ (codes ".jpeg", codes "image/jpeg")
    ∷ (codes ".gif", codes "image/gif")
    ∷ (codes ".svg", codes "image/svg+xml")
    ∷ (codes ".ico", codes "image/x-icon")
    ∷ (codes ".txt", codes "text/plain; charset=utf-8")
    ∷ (codes ".pdf", codes "application/pdf")
    ∷ (codes ".zip", codes "application/zip")
    ∷ (codes ".mp4", codes "video/mp4")
    ∷ (codes ".mp3", codes "audio/mpeg")
    ∷ (codes ".wav", codes "audio/wav")
    ∷ (codes ".woff", codes "font/woff")
    ∷ (codes ".woff2", codes "font/woff2")
    ∷ (codes ".ttf", codes "font/ttf")
    ∷ (codes ".eot", codes "application/vnd.ms-fontobject")
    ∷ []

-- GetContentType
unfoldable pub get_content_type : Text → Text
get_content_type ext = content_type_in content_types (to_lower ext)
