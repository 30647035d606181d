-- ===== src/Http/Framing.antt =====
-- src/http/request_reader.cpp, its constants and the functions of its anonymous namespace: how the
-- length of a body is found. A `std::size_t` that is computed from digits wraps at 2^64 here as there.
pub mod Digits
mod Measure
mod Tests
use carafe.Base.{
  ℕ, zero, ◌+◌, ◌-◌, ◌*◌, ◌%◌, ◌^◌, Bool, true, false, not, ◌&&◌, ◌||◌, Option, none, some, List,
  [], ◌∷◌, ltb, ◌==◌, within, if◌then◌else◌, Bytes, codes, equal, find, length, take,
}
use carafe.Http.Ascii.{ascii_equals_lowered, ascii_hex_value}
use carafe.Http.FieldList.{list_elements}
use carafe.Http.Headers
use carafe.Http.Headers.{Headers}
use carafe.Http.Request.{Version, is_http10}

pub data RequestError : Type 0 where
  malformed unknown_method unsupported_version request_line_too_long header_too_long : RequestError
  too_many_headers head_too_large body_too_large unsupported_transfer_encoding : RequestError

abbrev pub max_head_bytes : ℕ
max_head_bytes = 65536

abbrev pub max_fields : ℕ
max_fields = 100

abbrev pub crlf_size : ℕ
crlf_size = 2

abbrev pub max_body_bytes : ℕ
max_body_bytes = 1048576

abbrev pub max_drain_bytes : ℕ
max_drain_bytes = 8388608

-- The values of `std::size_t`.
abbrev pub size_mod : ℕ
size_mod = 18446744073709551616

-- `BodyLength`: an error, or a length, or chunked framing, which leaves `bytes` meaningless.
pub data BodyLength : Type 0 where
  length_failed : RequestError → BodyLength
  length_is : ℕ → BodyLength
  length_chunked : BodyLength

-- `Codings`: `last` is the empty view before any coding was met.
pub record Codings : Type 0 where
  pub count : ℕ
  pub chunked : ℕ
  pub last : Bytes

pub data ChunkLength : Type 0 where
  chunk_failed : RequestError → ChunkLength
  chunk_is : ℕ → ChunkLength

-- The inner loop of `transfer_codings`, over the elements of one field.
abbrev add_coding : Codings → Bytes → Codings
add_coding codings coding = record {
  count = codings.count + 1;
  chunked = codings.chunked + (if ascii_equals_lowered (codes "chunked") coding then 1 else 0);
  last = coding;
}

add_codings : Codings → List Bytes → Codings
add_codings codings [] = codings
add_codings codings (coding ∷ rest) = add_codings (add_coding codings coding) rest

walk_codings : Codings → Headers → Codings
walk_codings codings [] = codings
walk_codings codings (field ∷ fields) =
    walk_codings
      (if not (equal field.name (codes "transfer-encoding"))
        then codings
        else add_codings codings (list_elements field.value))
      fields

unfoldable pub transfer_codings : Headers → Codings
unfolding add_codings walk_codings
transfer_codings headers = walk_codings (record { count = 0; chunked = 0; last = [] }) headers

unfoldable pub content_length_digits : ℕ → Bytes → BodyLength
content_length_digits bytes [] = length_is bytes
content_length_digits bytes (digit ∷ value) =
    let next = (bytes * 10 + (digit - b'0')) % size_mod in
    let rest = content_length_digits next value in
    if ltb digit b'0' || ltb b'9' digit
    then length_failed malformed
    else if ltb max_drain_bytes next
    then length_failed body_too_large
    else rest

unfoldable pub parse_content_length : Bytes → BodyLength
unfolding content_length_digits
parse_content_length value =
    if length value == 0 then length_failed malformed else content_length_digits 0 value

unfoldable pub chunk_size_digits : ℕ → Bytes → ChunkLength
chunk_size_digits bytes [] = chunk_is bytes
chunk_size_digits bytes (ch ∷ line) = elim (ascii_hex_value ch) [
  | none ↦ chunk_failed malformed
  | some digit ↦
      if ltb max_body_bytes ((bytes * 16 + digit) % size_mod)
      then chunk_failed body_too_large
      else chunk_size_digits ((bytes * 16 + digit) % size_mod) line
]

-- The size ends at the first ';'.
abbrev pub without_extension : Bytes → Bytes
without_extension line = elim (find b';' line) [ none ↦ line | some ext ↦ take ext line ]

unfoldable pub parse_chunk_size : Bytes → ChunkLength
unfolding chunk_size_digits
parse_chunk_size line =
    if length (without_extension line) == 0
    then chunk_failed malformed
    else chunk_size_digits 0 (without_extension line)

-- The rules for a request with a Transfer-Encoding.
measure_codings : Codings → BodyLength
measure_codings codings =
    if not (ascii_equals_lowered (codes "chunked") codings.last) || ltb 1 codings.chunked
    then length_failed malformed
    else if ltb 1 codings.count
    then length_failed unsupported_transfer_encoding
    else length_chunked

measure_transfer : Headers → Version → BodyLength
unfolding measure_codings
measure_transfer headers version =
    if Headers.contains headers (codes "content-length")
    then length_failed malformed
    else if is_http10 version
    then length_failed malformed
    else measure_codings (transfer_codings headers)

measure_content : Headers → BodyLength
measure_content headers =
    if ltb 1 (Headers.count headers (codes "content-length"))
    then length_failed malformed
    else elim (Headers.get headers (codes "content-length")) [
      | none ↦ length_is 0
      | some value ↦ parse_content_length value
    ]

unfoldable pub measure_body : Headers → Version → BodyLength
unfolding measure_transfer measure_content
measure_body headers version =
    if Headers.contains headers (codes "transfer-encoding")
    then measure_transfer headers version
    else measure_content headers
