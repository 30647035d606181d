-- ===== src/Http/Response/Tests.antt =====
-- Responses of src/http/response.cpp at concrete values.
use carafe.Base.{true, false, some, [], ◌∷◌, ◌++◌, ◌≡◌, refl, if◌then◌else◌, codes, equal, length}
use carafe.Http.Ascii.{ascii_lower}
use carafe.Http.Headers
use carafe.Http.Response.{
  Response, to_string, status_message, status_line, text_response, status_response, serialize,
}
use carafe.Http.Response.Framed.{lines, sent_fields, serialize-lines}

not_found :
    serialize (status_response 404) true
    ≡ codes
        "HTTP/1.1 404 Not Found\r\ncontent-type: text/plain; charset=utf-8\r\ncontent-length: 14\r\n\r\n404 Not Found\n"
unfolding serialize status_response Headers.add ascii_lower equal to_string status_message
    text_response
not_found = refl

-- A response whose caller wrote a Content-Length of its own.
abbrev lying : Response
lying = record {
  status = 200;
  headers = record { name = codes "content-length"; value = codes "3" } ∷ [];
  body = codes "hello";
}

serialize-lines_example :
    (serialize lying false
      ≡ status_line lying.status
        ++ lines (sent_fields lying)
        ++ codes "\r\n"
        ++ (if false then lying.body else []))
    × (Headers.count (sent_fields lying) (codes "content-length") ≡ 1)
    × (Headers.get (sent_fields lying) (codes "content-length")
        ≡ some (to_string (length lying.body)))
serialize-lines_example = serialize-lines lying false
