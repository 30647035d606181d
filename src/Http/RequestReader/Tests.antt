-- ===== src/Http/RequestReader/Tests.antt =====
-- The request reader at concrete inputs: src/http/request_reader.cpp.
use carafe.Base.{
  false, Option, none, some, [], ◌∷◌, ◌≡◌, refl, inl, arith, Bytes, codes, equal, find, find_from,
}
use carafe.Http.Ascii.{ascii_lower, ascii_equals_lowered}
use carafe.Http.FieldList.{list_elements}
use carafe.Http.Framing.{malformed, measure_body, parse_chunk_size, parse_content_length}
use carafe.Http.Headers
use carafe.Http.LineReader
use carafe.Http.LineReader.{LineReader, find_crlf, next_line, discard}
use carafe.Http.LineReader.Refinement.{IsValid}
use carafe.Http.ReaderState.{
  RequestReader, RequestResult, nothing_yet, complete, failure, new_reader, append, fail, refuse,
  finish_request, arm_next_request,
}
use carafe.Http.Request.{Request, post, http10, http11}
use carafe.Http.RequestParser.{
  lookup_method, look_up, parse_version, version_shape, known_version, contains_ctl, is_hex_digit,
  is_tchar, is_valid_value_char, has_valid_escapes, parse_method, parse_target, parse_parts,
  split_line, parse_request_line, lower_name, skip_ows, drop_trailing_ows, all_valid_value_chars,
  parse_field_parts, parse_header_field,
}
use carafe.Http.RequestReader.{
  error_of, handle_request_line, start_body, complete_head, add_field, handle_field_line,
  start_chunk, handle_chunk_size, drop_field, handle_trailer_line, read_discard, read_body,
  read_chunk, read_body_bytes, long_line_error, handle_line, is_chunk_size, charge_line,
  read_line_result, read_next_line, round, rounds, next_request,
}
use carafe.Http.RequestReader.Dribble.{next_request-append}
use carafe.Http.RequestReader.Progress.{next_request_total}
use carafe.Http.RequestReader.Latch.{next_request_latched}
use carafe.Http.RequestReader.Limits.{IsWithin}
use carafe.Http.RequestReader.Reach.{start, read, Reached-IsWithin}
use carafe.Http.RequestReader.Stream.{seen}

-- Everything that `next_request` calls.
unfoldable pub run_reader : RequestReader → Bytes → Option (RequestReader × RequestResult)
unfolding error_of handle_request_line start_body complete_head add_field handle_field_line
    start_chunk handle_chunk_size drop_field handle_trailer_line read_discard read_body read_chunk
    read_body_bytes long_line_error handle_line is_chunk_size charge_line read_line_result
    read_next_line round rounds next_request append fail refuse finish_request arm_next_request
    lookup_method look_up parse_version version_shape known_version contains_ctl is_hex_digit
    is_tchar is_valid_value_char has_valid_escapes parse_method parse_target parse_parts split_line
    parse_request_line lower_name skip_ows drop_trailing_ows all_valid_value_chars parse_field_parts
    parse_header_field next_line discard LineReader.take LineReader.append ascii_lower
    ascii_equals_lowered list_elements measure_body parse_chunk_size parse_content_length
    Headers.add Headers.count Headers.get Headers.contains equal find find_from
run_reader r bytes = next_request (append r bytes)

abbrev pub posted : Request
posted = record {
  method = post;
  target = codes "/e";
  version = http11;
  headers =
      record { name = codes "host"; value = codes "h" }
      ∷ record { name = codes "content-length"; value = codes "2" }
      ∷ [];
  body = codes "ok";
  params = [];
}

abbrev is_complete : Option (RequestReader × RequestResult) → Option Request
is_complete (some (r, complete request)) = some request
is_complete _ = none

post_read :
    is_complete
      (run_reader new_reader (codes "POST /e HTTP/1.1\r\nHost: h\r\nContent-Length: 2\r\n\r\nok"))
    ≡ some posted
unfolding run_reader
post_read = refl

-- The first two bytes of a request, and the reader that was asked for it too early.
abbrev begun : RequestReader
begun = record new_reader { line_reader = record { buffer = codes "GE"; begin = 0; scanned = 0 } }

abbrev asked : RequestReader
asked = record new_reader { line_reader = record { buffer = codes "GE"; begin = 0; scanned = 1 } }

begun-IsValid : IsValid begun.line_reader
begun-IsValid = record {
  cleared = 0;
  begin_le = omega arith;
  scanned_is = omega arith;
  cleared_lt = inl refl;
  clear = tt;
}

begun_waits : next_request begun ≡ some (asked, nothing_yet)
unfolding run_reader
begun_waits = refl

next_request-append_example :
    seen (next_request (append begun (codes "T / HTTP/1.0\r\n\r\n")))
    ≡ seen (next_request (append asked (codes "T / HTTP/1.0\r\n\r\n")))
next_request-append_example =
    next_request-append begun asked (codes "T / HTTP/1.0\r\n\r\n") begun-IsValid begun_waits

next_request_total_example :
    (q : RequestReader) × (result : RequestResult) × (next_request begun ≡ some (q, result))
next_request_total_example = next_request_total begun begun-IsValid

-- A line that is no request line, and what it leaves.
abbrev refused : RequestReader
refused = record new_reader {
  line_reader = record { buffer = codes "X\r\n"; begin = 0; scanned = 0 };
}

abbrev lost : RequestReader
lost = record new_reader {
  line_reader = record { buffer = codes "X\r\n"; begin = 3; scanned = 3 };
  latched = some malformed;
  head_bytes = 3;
}

refused_fails : next_request refused ≡ some (lost, failure malformed false http10)
unfolding run_reader
refused_fails = refl

next_request_latched_example :
    next_request (append lost (codes "GET / HTTP/1.0\r\n\r\n"))
    ≡ some (append lost (codes "GET / HTTP/1.0\r\n\r\n"), failure malformed false http10)
next_request_latched_example =
    next_request_latched refused lost malformed http10 (codes "GET / HTTP/1.0\r\n\r\n")
      refused_fails

abbrev posting : Bytes
posting = codes "POST /e HTTP/1.1\r\nHost: h\r\nContent-Length: 2\r\n\r\nok"

abbrev served : RequestReader
served = record new_reader { line_reader = record { buffer = posting; begin = 50; scanned = 50 } }

posting-served : next_request (append new_reader posting) ≡ some (served, complete posted)
unfolding run_reader
posting-served = refl

Reached-IsWithin_example : IsWithin posted
Reached-IsWithin_example =
    Reached-IsWithin (append new_reader posting) served posted (read start posting) posting-served
