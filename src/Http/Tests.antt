-- ===== src/Http/Tests.antt =====
-- The theorems on HTTP messages at concrete data.
use kwik.Prelude.{List, ℕ, ◌≡◌, ◌≢◌, refl, [], ◌∷◌, ◌++◌, arith, codes, inr}
use kwik.Http.Text.{Text, same, to_lower, lower_byte, is_space, trim_right}
use kwik.Http.Numerals.{pos, itoa, digits, emit}
use kwik.Http.Headers.{Headers, find, get, get_all}
use kwik.Http.Messages.{HttpRequest, HttpResponse, serialize_request, serialize_response}
use kwik.Http.Parse.{parsed, fails, stuck, parse_http_request, parse_http_response}
use kwik.Http.Lines.{IsField}
use kwik.Http.Requests.{IsWord, parse_http_request-serialize_request}
use kwik.Http.Responses.{parse_http_response-serialize_response}
use kwik.Http.Outcomes.{parse_http-ne-stuck}
use kwik.Http.Parse.{HttpError}
use kwik.Http.Server.{HttpResponseWriter, new_http_response_writer, get_response}
use kwik.Http.Server.{find_handler}
use kwik.Http.Routes.{Choice, find_handler-Choice}
use kwik.Http.Replies.{parse_http_response-get_response}

abbrev length_2 : Headers
length_2 = (codes "host", codes "a b" ∷ []) ∷ (codes "content-length", codes "2" ∷ []) ∷ []

host-IsField : IsField (codes "host") (codes "a b")
unfolding is_space trim_right
host-IsField = record {
  some_key = λ e. cc;
  no_colon = ground arith;
  key_line = ground arith;
  key_trimmed = record { head = refl; tail = refl };
  value_line = ground arith;
  value_trimmed = record { head = refl; tail = refl };
}

length-IsField : IsField (codes "content-length") (codes "2")
unfolding is_space trim_right
length-IsField = record {
  some_key = λ e. cc;
  no_colon = ground arith;
  key_line = ground arith;
  key_trimmed = record { head = refl; tail = refl };
  value_line = ground arith;
  value_trimmed = record { head = refl; tail = refl };
}

get-IsWord : IsWord (codes "GET")
unfolding is_space
get-IsWord = record { some_byte = λ e. cc; solid = ground arith }

abbrev request : HttpRequest
request = record {
  method = codes "GET";
  url = codes "/";
  version = codes "HTTP/1.1";
  headers = length_2;
  body = codes "hi";
  remote_addr = [];
}

parse_http_request-serialize_request_example :
    parse_http_request 100 (serialize_request request ++ codes "GET") ≡ parsed request
unfolding is_space find same to_lower lower_byte get get_all itoa digits emit
parse_http_request-serialize_request_example =
    parse_http_request-serialize_request 100 request (codes "GET") (record {
      method_word = record { some_byte = λ e. cc; solid = ground arith };
      url_word = record { some_byte = λ e. cc; solid = ground arith };
      version_word = record { some_byte = λ e. cc; solid = ground arith };
      fields = (host-IsField, (length-IsField, tt));
      keys = (λ e. cc, refl, refl, (λ e. cc, refl, refl, tt));
      sized = inr (refl, omega arith, omega arith);
      local = refl;
    })

abbrev response : HttpResponse
response = record {
  version = codes "HTTP/1.1";
  status_code = pos 404;
  status_text = codes "Not Found";
  headers = length_2;
  body = codes "hi";
}

parse_http_response-serialize_response_example :
    parse_http_response 100 (serialize_response response ++ []) ≡ parsed response
unfolding is_space find same to_lower lower_byte get get_all itoa digits emit trim_right
parse_http_response-serialize_response_example =
    parse_http_response-serialize_response 100 response [] (record {
      version_word = record { some_byte = λ e. cc; solid = ground arith };
      code_int = omega arith;
      text_line = record { some_byte = λ e. cc; no_line = ground arith; tail = refl };
      fields = (host-IsField, (length-IsField, tt));
      keys = (λ e. cc, refl, refl, (λ e. cc, refl, refl, tt));
      sized = inr (refl, omega arith, omega arith);
    })

parse_http-ne-stuck_example :
    (parse_http_request 100 (codes "GET / HTTP/1.1") ≢ fails stuck)
    × (parse_http_response 100 (codes "GET / HTTP/1.1") ≢ fails stuck)
parse_http-ne-stuck_example = parse_http-ne-stuck 100 (codes "GET / HTTP/1.1")

-- A handler has written "hi" with the status 404.
abbrev writer : HttpResponseWriter
writer = record new_http_response_writer { status_code = pos 404; body = codes "hi" }

parse_http_response-get_response_example :
    parse_http_response 100 (serialize_response (get_response writer).0 ++ codes "next")
    ≡ fails HttpError.invalid_status_code
parse_http_response-get_response_example =
    parse_http_response-get_response 100 writer (codes "next")

-- Numbers stand for the handlers.
abbrev routes : List (Text × ℕ)
routes = (codes "/a/*", 1) ∷ (codes "/", 2) ∷ (codes "/*", 3) ∷ []

find_handler-Choice_example : Choice (codes "/a/b") routes (find_handler (codes "/a/b") routes)
find_handler-Choice_example = find_handler-Choice (codes "/a/b") routes
