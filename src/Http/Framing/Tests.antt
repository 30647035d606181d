-- ===== src/Http/Framing/Tests.antt =====
-- The framing functions of src/http/request_reader.cpp at concrete inputs.
use carafe.Base.{◌≡◌, ◌↔◌, ◌≢◌, ◌≤◌, refl, true, false, some, [], ◌∷◌, codes, All, equal, find}
use carafe.Http.Ascii.{ascii_lower, ascii_equals_lowered}
use carafe.Http.FieldList.{list_elements}
use carafe.Http.Framing.{
  max_body_bytes, max_drain_bytes, length_is, length_chunked, chunk_is, parse_content_length,
  parse_chunk_size, without_extension, measure_body,
}
use carafe.Http.Framing.Digits.{
  decimal, hexadecimal, IsDigit, parse_content_length_iff, parse_chunk_size_iff,
}
use carafe.Http.Framing.Measure.{IsChunked, codings_of, measure_body-IsChunked}
use carafe.Http.Headers
use carafe.Http.Headers.{Headers}
use carafe.Http.Request.{http11}

parse_content_length_iff_example : (parse_content_length (codes "42") ≡ length_is 42) ↔ (
    (codes "42" ≢ [])
    × All IsDigit (codes "42")
    × (decimal 0 (codes "42") ≡ 42)
    × (42 ≤ max_drain_bytes))
parse_content_length_iff_example = parse_content_length_iff (codes "42") 42

parse_chunk_size_iff_example : (parse_chunk_size (codes "1F;x") ≡ chunk_is 31) ↔ (
    (without_extension (codes "1F;x") ≢ [])
    × (hexadecimal 0 (without_extension (codes "1F;x")) ≡ some 31)
    × (31 ≤ max_body_bytes))
parse_chunk_size_iff_example = parse_chunk_size_iff (codes "1F;x") 31

abbrev chunked_head : Headers
chunked_head = record { name = codes "transfer-encoding"; value = codes "Chunked" } ∷ []

abbrev sized_head : Headers
sized_head = record { name = codes "content-length"; value = codes "42" } ∷ []

measure_body-IsChunked_example : (measure_body chunked_head http11 ≡ length_chunked) ↔ (
    (Headers.contains chunked_head (codes "transfer-encoding") ≡ true)
    × (Headers.contains chunked_head (codes "content-length") ≡ false)
    × (http11 ≡ http11)
    × IsChunked (codings_of chunked_head))
measure_body-IsChunked_example = measure_body-IsChunked chunked_head http11

sized : measure_body sized_head http11 ≡ length_is 42
unfolding measure_body parse_content_length list_elements ascii_lower ascii_equals_lowered
    Headers.get Headers.count Headers.contains find equal
sized = refl
