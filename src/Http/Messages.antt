-- ===== src/Http/Messages.antt =====
-- kwikhttp/protocol.go: requests and responses, and how they are written. A body that is nil and an
-- empty one are not told apart.
use kwik.Prelude.{ℕ, List, [], ◌∷◌, ◌++◌, length, codes, ◌==◌, if◌then◌else◌}
use kwik.Http.Text.{Text}
use kwik.Http.Numerals.{ℤ, pos, negsuc, itoa}
use kwik.Http.Headers.{Headers, add, set, get}

pub record HttpRequest : Type 0 where
  pub method : Text
  pub url : Text
  pub version : Text
  pub headers : Headers
  pub body : Text
  pub remote_addr : Text

pub record HttpResponse : Type 0 where
  pub version : Text
  pub status_code : ℤ
  pub status_text : Text
  pub headers : Headers
  pub body : Text

abbrev pub http_11 : Text
http_11 = codes "HTTP/1.1"

abbrev pub content_length : Text
content_length = codes "Content-Length"

unfoldable pub new_http_request : Text → Text → HttpRequest
new_http_request method url = record {
  method = method;
  url = url;
  version = http_11;
  headers = [];
  body = [];
  remote_addr = [];
}

-- The named status codes.
abbrev pub status_texts : List (ℕ × Text)
status_texts =
    (200, codes "OK")
    ∷ (201, codes "Created")
    ∷ (202, codes "Accepted")
    ∷ (204, codes "No Content")
    ∷ (301, codes "Moved Permanently")
    ∷ (302, codes "Found")
    ∷ (304, codes "Not Modified")
    ∷ (400, codes "Bad Request")
    ∷ (401, codes "Unauthorized")
    ∷ (403, codes "Forbidden")
    ∷ (404, codes "Not Found")
    ∷ (405, codes "Method Not Allowed")
    ∷ (500, codes "Internal Server Error")
    ∷ (501, codes "Not Implemented")
    ∷ (502, codes "Bad Gateway")
    ∷ (503, codes "Service Unavailable")
    ∷ []

abbrev pub text_in : List (ℕ × Text) → ℕ → Text
text_in [] code = codes "Unknown"
text_in (entry ∷ texts) code = if entry.0 == code then entry.1 else text_in texts code

unfoldable pub get_status_text : ℤ → Text
get_status_text (pos code) = text_in status_texts code
get_status_text (negsuc code) = codes "Unknown"

unfoldable pub new_http_response : ℤ → HttpResponse
new_http_response code = record {
  version = http_11;
  status_code = code;
  status_text = get_status_text code;
  headers = [];
  body = [];
}

abbrev pub with_length : Text → Headers → Headers
with_length body h = set content_length (itoa (pos (length body))) h

unfoldable pub set_request_body : Text → HttpRequest → HttpRequest
set_request_body body r = record r { body = body; headers = with_length body r.headers }

unfoldable pub set_response_body : Text → HttpResponse → HttpResponse
set_response_body body r = record r { body = body; headers = with_length body r.headers }

-- SetHeader, AddHeader and GetHeader of a request.
unfoldable pub set_request_header : Text → Text → HttpRequest → HttpRequest
set_request_header key value r = record r { headers = set key value r.headers }

unfoldable pub add_request_header : Text → Text → HttpRequest → HttpRequest
add_request_header key value r = record r { headers = add key value r.headers }

unfoldable pub get_request_header : Text → HttpRequest → Text
get_request_header key r = get key r.headers

-- The same methods of a response.
unfoldable pub set_response_header : Text → Text → HttpResponse → HttpResponse
set_response_header key value r = record r { headers = set key value r.headers }

unfoldable pub add_response_header : Text → Text → HttpResponse → HttpResponse
add_response_header key value r = record r { headers = add key value r.headers }

unfoldable pub get_response_header : Text → HttpResponse → Text
get_response_header key r = get key r.headers

abbrev pub end_of_line : Text
end_of_line = b'\r' ∷ b'\n' ∷ []

abbrev pub header_line : Text → Text → Text
header_line key value = key ++ (b':' ∷ b' ' ∷ (value ++ end_of_line))

unfoldable pub serialize_values : Text → List Text → Text
serialize_values key [] = []
serialize_values key (value ∷ values) = header_line key value ++ serialize_values key values

-- The loop over the headers.
unfoldable pub serialize_headers : Headers → Text
serialize_headers [] = []
serialize_headers (entry ∷ h) = serialize_values entry.0 entry.1 ++ serialize_headers h

-- "%s %s %s\r\n"
abbrev pub start_line : Text → Text → Text → Text
start_line a b c = a ++ (b' ' ∷ (b ++ (b' ' ∷ (c ++ end_of_line))))

-- SerializeHTTPRequest
unfoldable pub serialize_request : HttpRequest → Text
serialize_request r =
    start_line r.method r.url r.version ++ (serialize_headers r.headers ++ (end_of_line ++ r.body))

-- SerializeHTTPResponse
unfoldable pub serialize_response : HttpResponse → Text
serialize_response r =
    start_line r.version (itoa r.status_code) r.status_text
    ++ (serialize_headers r.headers ++ (end_of_line ++ r.body))
