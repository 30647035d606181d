-- ===== src/Http/Response.antt =====
-- include/carafe/http/response.hpp and src/http/response.cpp. A status is a number: the source's `int`
-- where it is not negative.
mod Decimal
mod Framed
mod Tests
use carafe.Base.{
  ℕ, zero, suc, ◌+◌, ◌/◌, ◌%◌, Bool, true, false, List, [], ◌∷◌, ◌++◌, ltb, ◌==◌, if◌then◌else◌,
  Bytes, codes, equal, length,
}
use carafe.Http.Headers
use carafe.Http.Headers.{Headers, HeaderField}

pub record Response : Type 0 where
  pub status : ℕ
  pub headers : Headers
  pub body : Bytes

-- `std::to_string`: one round for each digit, and a number has no more digits than its value and one.
unfoldable pub digits : ℕ → ℕ → Bytes
digits zero n = []
digits (suc rounds) n = elim (ltb n 10) [
  | true ↦ (b'0' + n) ∷ []
  | false ↦ digits rounds (n / 10) ++ (b'0' + n % 10) ∷ []
]

unfoldable pub to_string : ℕ → Bytes
unfolding digits
to_string n = digits (suc n) n

unfoldable pub status_message : ℕ → Bytes
status_message status =
    if status == 200
    then codes "OK"
    else if status == 400
    then codes "Bad Request"
    else if status == 401
    then codes "Unauthorized"
    else if status == 404
    then codes "Not Found"
    else if status == 405
    then codes "Method Not Allowed"
    else if status == 408
    then codes "Request Timeout"
    else if status == 413
    then codes "Content Too Large"
    else if status == 414
    then codes "URI Too Long"
    else if status == 431
    then codes "Request Header Fields Too Large"
    else if status == 500
    then codes "Internal Server Error"
    else if status == 501
    then codes "Not Implemented"
    else if status == 503
    then codes "Service Unavailable"
    else if status == 505
    then codes "HTTP Version Not Supported"
    else []

unfoldable pub text_response : ℕ → Bytes → Response
text_response status body = record {
  status = status;
  headers =
      Headers.add []
        (record { name = codes "content-type"; value = codes "text/plain; charset=utf-8" });
  body = body;
}

unfoldable pub status_response : ℕ → Response
unfolding to_string status_message text_response
status_response status =
    text_response status (to_string status ++ codes " " ++ status_message status ++ codes "\n")

abbrev pub field_line : HeaderField → Bytes
field_line field = field.name ++ codes ": " ++ field.value ++ codes "\r\n"

-- The loop over the fields.
unfoldable pub write_fields : Headers → Bytes
write_fields [] = []
write_fields (field ∷ fields) =
    if equal field.name (codes "content-length")
    then write_fields fields
    else field_line field ++ write_fields fields

unfoldable pub status_line : ℕ → Bytes
status_line status =
    codes "HTTP/1.1 " ++ to_string status ++ codes " " ++ status_message status ++ codes "\r\n"

unfoldable pub serialize : Response → Bool → Bytes
unfolding write_fields status_line
serialize response with_body =
    status_line response.status
    ++ write_fields response.headers
    ++ codes "content-length: "
    ++ to_string (length response.body)
    ++ codes "\r\n\r\n"
    ++ (if with_body then response.body else [])
