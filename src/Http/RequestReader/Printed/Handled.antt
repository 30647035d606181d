-- ===== src/Http/RequestReader/Printed/Handled.antt =====
-- The handlers of src/http/request_reader.cpp on the lines and the body of a printed request.
use carafe.Base.{
  sym, ℕ, ◌+◌, ◌≤◌, ◌<◌, false, none, some, [], ◌∷◌, ◌++◌, ◌≡◌, ◌≢◌, refl, ap, ◌∙◌, arith, Bytes,
  map, length, ◌==◌, le→ltb,
}
use carafe.Http.Ascii.{ascii_lower}
use carafe.Http.Framing.{
  measure_body, BodyLength, max_head_bytes, max_fields, max_body_bytes, crlf_size, length_is,
}
use carafe.Http.Headers
use carafe.Http.Headers.{HeaderField}
use carafe.Http.LineReader.{empty_reader}
use carafe.Http.ReaderState.{headers, body, complete, RequestReader, go_on, finish_request}
use carafe.Http.Request.{Request, RequestLine}
use carafe.Http.RequestParser.{parsed, parse_request_line, parse_header_field}
use carafe.Http.RequestParser.Line.{print, IsTarget, parse_request_line-print}
use carafe.Http.RequestReader.{
  handle_request_line, handle_line, start_body, complete_head, add_field, handle_field_line,
  is_chunk_size, charge_line, read_body,
}
use carafe.Http.RequestReader.Reads.{fresh}
use carafe.Http.RequestReader.Printed.{
  field_text, line_of, IsPrintable, IsHosted, field_text-parses, field_text_some,
}

-- The reader that has read a request line and `fields`, in `bytes` bytes.
abbrev pub in_head : Request → Headers.Headers → ℕ → ℕ → ℕ → RequestReader
in_head request fields bytes field_count chunk = record {
  phase = headers;
  line_reader = empty_reader;
  request = record {
    method = request.method;
    target = request.target;
    version = request.version;
    headers = fields;
    body = [];
    params = [];
  };
  latched = none;
  head_bytes = bytes;
  body_bytes = 0;
  chunk_bytes = chunk;
  field_count = field_count;
}

-- A line of the head that the cap allows goes to its handler.
pub charge_line-room :
    (r : RequestReader) (t : Bytes)
    → is_chunk_size r.phase ≡ false
    → r.head_bytes + length t + crlf_size ≤ max_head_bytes
    → charge_line r t
      ≡ handle_line r.phase (record r { head_bytes = r.head_bytes + length t + crlf_size }) t
unfolding charge_line
charge_line-room r t c h = ground arith

handle_request_line-parsed :
    (r : RequestReader) (t : Bytes) (value : RequestLine)
    → parse_request_line t ≡ parsed value
    → handle_request_line r t
      ≡ go_on (record r {
        request = record r.request {
          method = value.method;
          target = value.target;
          version = value.version;
        };
        phase = headers;
      })
unfolding handle_request_line
handle_request_line-parsed r t value e = rw (e, handle_request_line) refl

pub charge_line-print :
    (request : Request) (chunk : ℕ)
    → IsTarget request.target
    → 0 + length (print (line_of request)) + crlf_size ≤ max_head_bytes
    → charge_line (fresh chunk) (print (line_of request))
      ≡ go_on (in_head request [] (0 + length (print (line_of request)) + crlf_size) 0 chunk)
unfolding handle_line is_chunk_size
charge_line-print request chunk t h =
    charge_line-room (fresh chunk) (print (line_of request)) refl h
    ∙ handle_request_line-parsed
        (record (fresh chunk) { head_bytes = 0 + length (print (line_of request)) + crlf_size })
        (print (line_of request)) (line_of request) (parse_request_line-print (line_of request) t)

-- A field whose name is in lower case is added as it is.
add-lower :
    (fields : Headers.Headers) (field : HeaderField)
    → map ascii_lower field.name ≡ field.name
    → Headers.add fields field ≡ fields ++ field ∷ []
unfolding Headers.add
add-lower fields field e = ap (λ (name : Bytes). fields ++ record field { name = name } ∷ []) e

handle_field_line-parsed :
    (r : RequestReader) (t : Bytes) (field : HeaderField)
    → t ≢ []
    → r.field_count + 1 ≤ max_fields
    → parse_header_field t ≡ some field
    → handle_field_line r t ≡ add_field (record r { field_count = r.field_count + 1 }) (some field)
unfolding handle_field_line
handle_field_line-parsed r [] field ne few e = absurd (ne refl)
handle_field_line-parsed r (c ∷ t) field ne few e =
    rw (le→ltb max_fields (r.field_count + 1) few, e) refl

pub charge_line-field :
    (request : Request) (fields : Headers.Headers) (bytes n chunk : ℕ) (field : HeaderField)
    → IsPrintable field
    → bytes + length (field_text field) + crlf_size ≤ max_head_bytes
    → n + 1 ≤ max_fields
    → charge_line (in_head request fields bytes n chunk) (field_text field)
      ≡ go_on (
          in_head request
            (fields ++ field ∷ [])
            (bytes + length (field_text field) + crlf_size)
            (n + 1)
            chunk)
unfolding handle_line is_chunk_size add_field
charge_line-field request fields bytes n chunk field p h few =
    let charged = in_head request fields (bytes + length (field_text field) + crlf_size) n chunk in
    charge_line-room (in_head request fields bytes n chunk) (field_text field) refl h
    ∙ handle_field_line-parsed charged (field_text field) field (field_text_some field) few
        (field_text-parses field p)
    ∙ ap
        (λ hs.
          go_on (in_head request hs (bytes + length (field_text field) + crlf_size) (n + 1) chunk))
        (add-lower fields field p.name_lower)

pub complete_head-hosted :
    (request : Request) (r : RequestReader) (body_length : BodyLength)
    → r.request.headers ≡ request.headers
    → r.request.version ≡ request.version
    → IsHosted request
    → measure_body request.headers request.version ≡ body_length
    → complete_head r ≡ start_body r body_length
unfolding complete_head
complete_head-hosted request r body_length hs ver hosted framed =
    rw (hs, ver, framed) (ground (arith, hosted))

pub start_body_empty :
    (r : RequestReader) → start_body r (length_is 0) ≡ finish_request (record r { body_bytes = 0 })
unfolding start_body
start_body_empty r = refl

pub start_body_sized :
    (r : RequestReader) (n : ℕ)
    → 0 < n
    → n ≤ max_body_bytes
    → start_body r (length_is n) ≡ go_on (record r { body_bytes = n; phase = body })
unfolding start_body
start_body_sized r n pos small =
    let sized : (n == 0) ≡ false = ground arith in rw (le→ltb max_body_bytes n small, sized) refl

pub read_body-whole :
    (request : Request) (r : RequestReader) (chunk : ℕ)
    → finish_request (record r {
      line_reader = empty_reader;
      request = record r.request { body = request.body };
    })
      ≡ (fresh chunk, some (complete request))
    → read_body r (empty_reader, some request.body) ≡ (fresh chunk, some (complete request))
unfolding read_body
read_body-whole request r chunk e = e

-- The request that the handlers have put together.
pub sent :
    (request : Request) (content : Bytes)
    → content ≡ request.body
    → request.params ≡ []
    → record request { body = content; params = [] } ≡ request
sent request content e p =
    ap (λ b. record request { body = b; params = [] }) e
    ∙ ap (λ params. record request { params = params }) (sym p)
