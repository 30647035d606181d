-- ===== src/Http/RequestReader.antt =====
-- src/http/request_reader.cpp: the handlers of `RequestReader` and the loop of `next_request`.
mod Lines
pub mod Stream
pub mod Progress
mod Patience
pub mod Dribble
pub mod Pieces
pub mod Stable
mod Latch
mod Rounds
mod Limits
pub mod Reads
pub mod Printed
pub mod Reach
pub mod Tests
use carafe.Base.{
  ℕ, zero, suc, ◌+◌, ◌-◌, ◌*◌, Bool, true, false, not, ◌&&◌, ◌||◌, Option, none, some, [], ◌∷◌,
  ◌++◌, ltb, ◌==◌, if◌then◌else◌, Bytes, codes, equal, length, take, drop,
}
use carafe.Http.Framing.{
  RequestError, malformed, unknown_method, unsupported_version, request_line_too_long,
  header_too_long, too_many_headers, head_too_large, body_too_large, max_head_bytes, max_fields,
  crlf_size, max_body_bytes, BodyLength, length_failed, length_is, length_chunked, ChunkLength,
  chunk_failed, chunk_is, measure_body, parse_chunk_size,
}
use carafe.Http.Headers
use carafe.Http.Headers.{HeaderField}
use carafe.Http.LineReader
use carafe.Http.LineReader.{
  LineReader, LineResult, line_too_long, no_line, line, crlf, next_line, discard,
}
use carafe.Http.ReaderState.{
  Phase, request_line, headers, body, discarding, chunk_size, chunk_data, trailers, RequestResult,
  nothing_yet, complete, failure, RequestReader, Outcome, go_on, arm_next_request, finish_request,
  fail, refuse,
}
use carafe.Http.Request.{Request, Version, is_http10}
use carafe.Http.RequestParser
use carafe.Http.RequestParser.{
  ParseError, RequestLineResult, parsed, failed, parse_request_line, parse_header_field,
}

pub error_of : ParseError → RequestError
error_of ParseError.malformed = malformed
error_of ParseError.unknown_method = unknown_method
error_of ParseError.unsupported_version = unsupported_version

pub handle_request_line : RequestReader → Bytes → Outcome
handle_request_line r text = elim (parse_request_line text) [
  | failed error ↦ fail r (error_of error)
  | parsed value ↦ go_on (record r {
    request = record r.request {
      method = value.method;
      target = value.target;
      version = value.version;
    };
    phase = headers;
  })
]

-- The head is valid: what its body length asks for.
pub start_body : RequestReader → BodyLength → Outcome
start_body r (length_failed error) = fail r error
start_body r length_chunked = go_on (record r { phase = chunk_size })
start_body r (length_is bytes) =
    let q = record r { body_bytes = bytes } in
    if ltb max_body_bytes bytes
    then refuse q body_too_large
    else if bytes == 0
    then finish_request q
    else go_on (record q { phase = body })

pub complete_head : RequestReader → Outcome
complete_head r =
    let host_count = Headers.count r.request.headers (codes "host") in
    if ltb 1 host_count || (host_count == 0 && not (is_http10 r.request.version))
    then fail r malformed
    else start_body r (measure_body r.request.headers r.request.version)

pub add_field : RequestReader → Option HeaderField → Outcome
add_field r none = fail r malformed
add_field r (some field) =
    go_on
      (record r { request = record r.request { headers = Headers.add r.request.headers field } })

pub handle_field_line : RequestReader → Bytes → Outcome
handle_field_line r [] = complete_head r
handle_field_line r (c ∷ text) =
    let q = record r { field_count = r.field_count + 1 } in
    if ltb max_fields q.field_count
    then fail q too_many_headers
    else add_field q (parse_header_field (c ∷ text))

pub start_chunk : RequestReader → ChunkLength → Outcome
start_chunk r (chunk_failed error) = fail r error
start_chunk r (chunk_is bytes) =
    if bytes == 0
    then go_on (record r { phase = trailers })
    else if ltb max_body_bytes (length r.request.body + bytes)
    then fail r body_too_large
    else go_on (record r { chunk_bytes = bytes; phase = chunk_data })

pub handle_chunk_size : RequestReader → Bytes → Outcome
handle_chunk_size r text = start_chunk r (parse_chunk_size text)

-- A trailer is parsed and dropped.
pub drop_field : RequestReader → Option HeaderField → Outcome
drop_field r none = fail r malformed
drop_field r (some field) = go_on r

pub handle_trailer_line : RequestReader → Bytes → Outcome
handle_trailer_line r [] = finish_request r
handle_trailer_line r (c ∷ text) =
    let q = record r { field_count = r.field_count + 1 } in
    if ltb max_fields q.field_count
    then fail q too_many_headers
    else drop_field q (parse_header_field (c ∷ text))

pub read_discard : RequestReader → LineReader × ℕ → Outcome
read_discard r (lines, dropped) =
    let q = record r { line_reader = lines; body_bytes = r.body_bytes - dropped } in
    if ltb 0 q.body_bytes then (q, some nothing_yet) else go_on (arm_next_request q)

pub read_body : RequestReader → LineReader × Option Bytes → Outcome
read_body r (lines, none) = (record r { line_reader = lines }, some nothing_yet)
read_body r (lines, some bytes) =
    finish_request (record r { line_reader = lines; request = record r.request { body = bytes } })

pub read_chunk : RequestReader → LineReader × Option Bytes → Outcome
read_chunk r (lines, none) = (record r { line_reader = lines }, some nothing_yet)
read_chunk r (lines, some chunk) =
    let q = record r { line_reader = lines } in
    if not (equal (drop r.chunk_bytes chunk) crlf)
    then fail q malformed
    else go_on (record q {
      request = record r.request { body = r.request.body ++ take r.chunk_bytes chunk };
      phase = chunk_size;
    })

pub read_body_bytes : Phase → RequestReader → Outcome
read_body_bytes discarding r = read_discard r (discard r.line_reader r.body_bytes)
read_body_bytes body r = read_body r (LineReader.take r.line_reader r.body_bytes)
read_body_bytes _ r = read_chunk r (LineReader.take r.line_reader (r.chunk_bytes + crlf_size))

-- The error for an overlong line, by the phase that asked for it.
pub long_line_error : Phase → RequestError
long_line_error request_line = request_line_too_long
long_line_error headers = header_too_long
long_line_error trailers = header_too_long
long_line_error _ = malformed

pub handle_line : Phase → RequestReader → Bytes → Outcome
handle_line request_line r text = handle_request_line r text
handle_line headers r text = handle_field_line r text
handle_line chunk_size r text = handle_chunk_size r text
handle_line trailers r text = handle_trailer_line r text
handle_line _ r text = go_on r

pub is_chunk_size : Phase → Bool
is_chunk_size chunk_size = true
is_chunk_size _ = false

-- The caps on the head, then the phase's handler.
pub charge_line : RequestReader → Bytes → Outcome
charge_line r text =
    if is_chunk_size r.phase
    then handle_line r.phase r text
    else let q = record r { head_bytes = r.head_bytes + length text + crlf_size } in
      if ltb max_head_bytes q.head_bytes then fail q head_too_large else handle_line r.phase q text

pub read_line_result : RequestReader → LineReader × LineResult → Outcome
read_line_result r (lines, line_too_long) =
    fail (record r { line_reader = lines }) (long_line_error r.phase)
read_line_result r (lines, no_line) = (record r { line_reader = lines }, some nothing_yet)
read_line_result r (lines, line text) = charge_line (record r { line_reader = lines }) text

pub read_next_line : RequestReader → Outcome
read_next_line r = read_line_result r (next_line r.line_reader)

-- One round of the loop of `next_request`.
pub round : Phase → RequestReader → Outcome
round body r = read_body_bytes body r
round discarding r = read_body_bytes discarding r
round chunk_data r = read_body_bytes chunk_data r
round _ r = read_next_line r

-- `none`: the rounds ran out.
pub rounds : ℕ → RequestReader → Option (RequestReader × RequestResult)
rounds zero r = none
rounds (suc n) r =
    let (q, answer) = round r.phase r in
    elim answer [ none ↦ rounds n q | some result ↦ some (q, result) ]

-- Each round that goes on takes a byte from the buffer, or ends a discard.
abbrev pub round_limit : LineReader → ℕ
round_limit lines = 2 * (length lines.buffer - lines.begin) + 2

pub next_request : RequestReader → Option (RequestReader × RequestResult)
next_request r = elim r.latched [
  | some error ↦ some (record r { latched = some error }, failure error false r.request.version)
  | none ↦ rounds (round_limit r.line_reader) r
]
