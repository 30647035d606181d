-- ===== src/Http/RequestReader/Lines.antt =====
-- The handlers of `RequestReader` never look at the line reader, and leave it as it is.
use carafe.Base.{ℕ, Option, none, some, [], ◌∷◌, ◌≡◌, refl, sym, ap, ◌∙◌, ◌+◌, length, arith, Bytes}
use carafe.Http.Framing.{crlf_size, BodyLength, measure_body}
use carafe.Http.LineReader.{LineReader, LineResult, line_too_long, no_line, line}
use carafe.Http.ReaderState.{
  Phase, request_line, headers, chunk_size, trailers, RequestReader, Outcome, arm_next_request,
  finish_request, fail, refuse,
}
use carafe.Http.RequestReader.{
  handle_request_line, start_body, complete_head, add_field, handle_field_line, start_chunk,
  handle_chunk_size, drop_field, handle_trailer_line, handle_line, charge_line, read_line_result,
  read_discard, read_body, read_chunk,
}

abbrev pub with_lines : LineReader → RequestReader → RequestReader
with_lines l r = record r { line_reader = l }

abbrev pub outcome_with : LineReader → Outcome → Outcome
outcome_with l o = (with_lines l o.0, o.1)

module _ (l : LineReader) (r : RequestReader) where
  handle_request_line_lines :
      (t : Bytes)
      → handle_request_line (with_lines l r) t ≡ outcome_with l (handle_request_line r t)
  unfolding handle_request_line fail
  handle_request_line_lines t = ground arith

  start_body_lines :
      (b : BodyLength) → start_body (with_lines l r) b ≡ outcome_with l (start_body r b)
  unfolding start_body fail refuse finish_request arm_next_request
  start_body_lines b = ground arith

  complete_head_lines : complete_head (with_lines l r) ≡ outcome_with l (complete_head r)
  unfolding complete_head fail
  complete_head_lines =
      ground (arith, start_body_lines (measure_body r.request.headers r.request.version))

  handle_field_line_lines :
      (t : Bytes) → handle_field_line (with_lines l r) t ≡ outcome_with l (handle_field_line r t)
  unfolding handle_field_line add_field fail
  handle_field_line_lines [] = complete_head_lines
  handle_field_line_lines (c ∷ t) = ground arith

  handle_chunk_size_lines :
      (t : Bytes) → handle_chunk_size (with_lines l r) t ≡ outcome_with l (handle_chunk_size r t)
  unfolding handle_chunk_size start_chunk fail
  handle_chunk_size_lines t = ground arith

  handle_trailer_line_lines :
      (t : Bytes)
      → handle_trailer_line (with_lines l r) t ≡ outcome_with l (handle_trailer_line r t)
  unfolding handle_trailer_line drop_field fail finish_request arm_next_request
  handle_trailer_line_lines [] = refl
  handle_trailer_line_lines (c ∷ t) = ground arith

  handle_line_lines :
      (p : Phase) (t : Bytes)
      → handle_line p (with_lines l r) t ≡ outcome_with l (handle_line p r t)
  unfolding handle_line
  handle_line_lines request_line t = handle_request_line_lines t
  handle_line_lines headers t = handle_field_line_lines t
  handle_line_lines chunk_size t = handle_chunk_size_lines t
  handle_line_lines trailers t = handle_trailer_line_lines t
  handle_line_lines _ t = refl

charge_line_lines :
    (l : LineReader) (r : RequestReader) (t : Bytes)
    → charge_line (with_lines l r) t ≡ outcome_with l (charge_line r t)
unfolding charge_line fail
charge_line_lines l r t = ground (
  arith,
  handle_line_lines l r r.phase t,
  handle_line_lines l (record r { head_bytes = r.head_bytes + length t + crlf_size }) r.phase t,
)

module _ (k l m : LineReader) (r : RequestReader) where
  pub read_line_result_lines :
      (res : LineResult)
      → read_line_result (with_lines k r) (l, res) ≡ outcome_with l (read_line_result r (m, res))
  unfolding read_line_result fail
  read_line_result_lines line_too_long = refl
  read_line_result_lines no_line = refl
  read_line_result_lines (line t) =
      charge_line_lines l r t ∙ ap (outcome_with l) (sym (charge_line_lines m r t))

  pub read_discard_lines :
      (n : ℕ) → read_discard (with_lines k r) (l, n) ≡ outcome_with l (read_discard r (m, n))
  unfolding read_discard arm_next_request
  read_discard_lines n = ground arith

  pub read_body_lines :
      (b : Option Bytes) → read_body (with_lines k r) (l, b) ≡ outcome_with l (read_body r (m, b))
  unfolding read_body finish_request arm_next_request
  read_body_lines none = refl
  read_body_lines (some b) = refl

  pub read_chunk_lines :
      (b : Option Bytes) → read_chunk (with_lines k r) (l, b) ≡ outcome_with l (read_chunk r (m, b))
  unfolding read_chunk fail
  read_chunk_lines none = refl
  read_chunk_lines (some b) = ground arith
