-- ===== src/Http/RequestReader/Latch.antt =====
-- A failure that loses the stream is latched: `fail` and the head of `next_request`.
use carafe.Base.{
  inl, inr, ℕ, ◌+◌, false, none, some, [], ◌∷◌, ◌≡◌, refl, arith, Bytes, length, Option-cases,
}
use carafe.Http.Framing.{RequestError, crlf_size, BodyLength, measure_body}
use carafe.Http.LineReader.{LineReader, LineResult, line_too_long, no_line, line, next_line}
use carafe.Http.ReaderState.{
  Phase, request_line, headers, body, discarding, chunk_size, chunk_data, trailers, RequestResult,
  failure, RequestReader, Outcome, arm_next_request, finish_request, fail, refuse, append,
}
use carafe.Http.Request.{Version}
use carafe.Http.RequestReader.{
  handle_request_line, start_body, complete_head, add_field, handle_field_line, start_chunk,
  handle_chunk_size, drop_field, handle_trailer_line, handle_line, charge_line, read_line_result,
  read_discard, read_body, read_chunk, read_body_bytes, read_next_line, round, rounds, round_limit,
  next_request,
}
use carafe.Http.RequestReader.Rounds.{Keeps, rounds_inv}

-- A failure that does not continue is the latched one, for the version of the request at hand.
abbrev pub Latches : Outcome → Type 0
Latches (q, some (failure error false version)) =
    (q.latched ≡ some error) × (version ≡ q.request.version)
Latches (q, _) = Unit

module _ (r : RequestReader) where
  handle_request_line-Latches : (t : Bytes) → Latches (handle_request_line r t)
  unfolding handle_request_line fail
  handle_request_line-Latches t = ground arith

  start_body-Latches : (b : BodyLength) → Latches (start_body r b)
  unfolding start_body fail refuse finish_request arm_next_request
  start_body-Latches b = ground arith

  complete_head-Latches : Latches (complete_head r)
  unfolding complete_head fail
  complete_head-Latches =
      ground (arith, start_body-Latches (measure_body r.request.headers r.request.version))

  handle_field_line-Latches : (t : Bytes) → Latches (handle_field_line r t)
  unfolding handle_field_line add_field fail
  handle_field_line-Latches [] = complete_head-Latches
  handle_field_line-Latches (c ∷ t) = ground arith

  handle_chunk_size-Latches : (t : Bytes) → Latches (handle_chunk_size r t)
  unfolding handle_chunk_size start_chunk fail
  handle_chunk_size-Latches t = ground arith

  handle_trailer_line-Latches : (t : Bytes) → Latches (handle_trailer_line r t)
  unfolding handle_trailer_line drop_field fail finish_request arm_next_request
  handle_trailer_line-Latches [] = tt
  handle_trailer_line-Latches (c ∷ t) = ground arith

  handle_line-Latches : (p : Phase) (t : Bytes) → Latches (handle_line p r t)
  unfolding handle_line
  handle_line-Latches request_line t = handle_request_line-Latches t
  handle_line-Latches headers t = handle_field_line-Latches t
  handle_line-Latches chunk_size t = handle_chunk_size-Latches t
  handle_line-Latches trailers t = handle_trailer_line-Latches t
  handle_line-Latches _ t = tt

charge_line-Latches : (r : RequestReader) (t : Bytes) → Latches (charge_line r t)
unfolding charge_line fail
charge_line-Latches r t = ground (
  arith,
  handle_line-Latches r r.phase t,
  handle_line-Latches (record r { head_bytes = r.head_bytes + length t + crlf_size }) r.phase t,
)

read_line_result-Latches :
    (r : RequestReader) (l : LineReader) (res : LineResult) → Latches (read_line_result r (l, res))
unfolding read_line_result fail
read_line_result-Latches r l line_too_long = (refl, refl)
read_line_result-Latches r l no_line = tt
read_line_result-Latches r l (line t) = charge_line-Latches (record r { line_reader = l }) t

round-Latches : (p : Phase) (r : RequestReader) → Latches (round p r)
unfolding round read_body_bytes read_next_line
round-Latches discarding r = unfold read_discard arm_next_request in ground arith
round-Latches body r = unfold read_body finish_request in ground arith
round-Latches chunk_data r = unfold read_chunk fail in ground arith
round-Latches _ r =
    read_line_result-Latches r (next_line r.line_reader).0 (next_line r.line_reader).1

round-Keeps :
    (r : RequestReader) (o : Outcome)
    → Latches o
    → Keeps (λ _. Unit {0}) (λ q x. Latches (q, some x)) o
round-Keeps r (q, none) l = tt
round-Keeps r (q, some x) l = l

pub rounds-Latches :
    (n : ℕ) (r q : RequestReader) (x : RequestResult)
    → rounds n r ≡ some (q, x)
    → Latches (q, some x)
rounds-Latches n r q x =
    rounds_inv (λ _. Unit {0}) (λ q x. Latches (q, some x))
      (λ r _. round-Keeps r (round r.phase r) (round-Latches r.phase r)) n r q x tt

latched_again :
    (q : RequestReader) (error : RequestError) (version : Version) (bytes : Bytes)
    → q.latched ≡ some error
    → version ≡ q.request.version
    → next_request (append q bytes) ≡ some (append q bytes, failure error false version)
unfolding next_request append
latched_again q error version bytes l v = ground arith

-- If `next_request` reports a failure after which the stream does not continue, then whatever is
-- appended afterwards, the next call reports the same failure and leaves the reader as it was.
pub next_request_latched :
    (r q : RequestReader) (error : RequestError) (version : Version) (bytes : Bytes)
    → next_request r ≡ some (q, failure error false version)
    → next_request (append q bytes) ≡ some (append q bytes, failure error false version)
unfolding next_request
next_request_latched r q error version bytes e = elim (Option-cases r.latched) [
  | inl l ↦
      let (latched, v) =
        rounds-Latches (round_limit r.line_reader) r q (failure error false version)
          (rw (l, next_request) at e) in
      latched_again q error version bytes latched v
  | inr (old, l) ↦ latched_again q error version bytes (ground arith) (ground arith)
]
