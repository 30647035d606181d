-- ===== src/Http/RequestReader/Patience.antt =====
-- What one round does when more bytes stand behind those that it sees.
use carafe.Base.{
  ◌+◌, ◌-◌, ◌<◌, min, none, some, [], ◌∷◌, ◌++◌, ◌≡◌, subst, refl, sym, ap, inl, inr, arith, Bytes,
  Option-cases, length, length-append, drop-append_le, take-append_le, drop-append_ge, drop_all,
  lt→ltb,
}
use carafe.Http.Framing.{crlf_size, BodyLength, measure_body}
use carafe.Http.LineReader.{LineResult, line_too_long, no_line, line, find_crlf, empty_reader}
use carafe.Http.LineReader.Refinement.{read_line}
use carafe.Http.LineReader.Scan.{find_crlf_bound, find_crlf-append}
use carafe.Http.ReaderState.{
  Phase, request_line, headers, body, discarding, chunk_size, chunk_data, trailers, nothing_yet,
  complete, failure, RequestReader, Outcome, arm_next_request, finish_request, fail, refuse,
}
use carafe.Http.RequestReader.{
  handle_request_line, start_body, complete_head, add_field, handle_field_line, start_chunk,
  handle_chunk_size, drop_field, handle_trailer_line, handle_line, charge_line, read_line_result,
  read_discard, read_body, read_chunk,
}
use carafe.Http.RequestReader.Stream.{blank, round_bytes}

-- A handler that has a line never asks for more bytes, and latches a failure only when it reports it.
abbrev Decides : RequestReader → Outcome → Type 0
Decides r (q, none) = q.latched ≡ r.latched
Decides r (q, some nothing_yet) = ⊥
Decides r (q, some (complete request)) = q.latched ≡ r.latched
Decides r (q, some (failure error continues version)) = Unit

module _ (r : RequestReader) where
  handle_request_line-Decides : (t : Bytes) → Decides r (handle_request_line r t)
  unfolding handle_request_line fail
  handle_request_line-Decides t = ground arith

  start_body-Decides : (b : BodyLength) → Decides r (start_body r b)
  unfolding start_body fail refuse finish_request arm_next_request
  start_body-Decides b = ground arith

  complete_head-Decides : Decides r (complete_head r)
  unfolding complete_head fail
  complete_head-Decides =
      ground (arith, start_body-Decides (measure_body r.request.headers r.request.version))

  handle_field_line-Decides : (t : Bytes) → Decides r (handle_field_line r t)
  unfolding handle_field_line add_field fail
  handle_field_line-Decides [] = complete_head-Decides
  handle_field_line-Decides (c ∷ t) = ground arith

  handle_chunk_size-Decides : (t : Bytes) → Decides r (handle_chunk_size r t)
  unfolding handle_chunk_size start_chunk fail
  handle_chunk_size-Decides t = ground arith

  handle_trailer_line-Decides : (t : Bytes) → Decides r (handle_trailer_line r t)
  unfolding handle_trailer_line drop_field fail finish_request arm_next_request
  handle_trailer_line-Decides [] = refl
  handle_trailer_line-Decides (c ∷ t) = ground arith

  handle_line-Decides : (p : Phase) (t : Bytes) → Decides r (handle_line p r t)
  unfolding handle_line
  handle_line-Decides request_line t = handle_request_line-Decides t
  handle_line-Decides headers t = handle_field_line-Decides t
  handle_line-Decides chunk_size t = handle_chunk_size-Decides t
  handle_line-Decides trailers t = handle_trailer_line-Decides t
  handle_line-Decides _ t = refl

charge_line-Decides : (r : RequestReader) (t : Bytes) → Decides r (charge_line r t)
unfolding charge_line fail
charge_line-Decides r t = ground (
  arith,
  handle_line-Decides r r.phase t,
  handle_line-Decides (record r { head_bytes = r.head_bytes + length t + crlf_size }) r.phase t,
)

-- A line that was read is the line that is read when more bytes follow.
pub read_line-append :
    (p bs t : Bytes)
    → (read_line p).1 ≡ line t
    → read_line (p ++ bs) ≡ ((read_line p).0 ++ bs, line t)
unfolding read_line
read_line-append p bs t e = elim (Option-cases (find_crlf p)) [
  | inl n ↦ absurd (ground arith)
  | inr (i, n) ↦ ground (
    arith,
    find_crlf-append p bs i n,
    find_crlf_bound p i n,
    drop-append_le (i + 2) p bs,
    take-append_le i p bs,
  )
]

read_line-no_line : (p : Bytes) → (read_line p).1 ≡ no_line → (read_line p).0 ≡ p
unfolding read_line
read_line-no_line p e = ground arith

Decides-none :
    (r : RequestReader) (o : Outcome) → Decides r o → o.1 ≡ none → o.0.latched ≡ r.latched
Decides-none r (q, none) d e = d
Decides-none r (q, some x) d e = absurd (cc)

Decides-not_yet : (r : RequestReader) (o : Outcome) → Decides r o → o.1 ≡ some nothing_yet → ⊥
Decides-not_yet r (q, none) d e = cc
Decides-not_yet r (q, some nothing_yet) d e = d
Decides-not_yet r (q, some (complete x)) d e = cc
Decides-not_yet r (q, some (failure x y z)) d e = cc

-- Only a whole line lets the reader go on.
pub read_line_result_go_on :
    (r : RequestReader) (res : LineResult)
    → (read_line_result r (empty_reader, res)).1 ≡ none
    → (t : Bytes) × (res ≡ line t)
unfolding read_line_result fail
read_line_result_go_on r line_too_long e = absurd (cc)
read_line_result_go_on r no_line e = absurd (cc)
read_line_result_go_on r (line t) e = (t, refl)

-- It waits only where no line is there yet.
read_line_result_wait :
    (r : RequestReader) (res : LineResult)
    → (read_line_result r (empty_reader, res)).1 ≡ some nothing_yet
    → res ≡ no_line
unfolding read_line_result fail
read_line_result_wait r line_too_long e = absurd (cc)
read_line_result_wait r no_line e = refl
read_line_result_wait r (line t) e =
    absurd (Decides-not_yet (blank r) (charge_line (blank r) t) (charge_line-Decides (blank r) t) e)

-- Where `round_bytes` goes on with `v`, it does the same with more bytes behind.
abbrev pub GoesOn : Phase → RequestReader → Bytes → Bytes → Outcome × Bytes → Type 0
GoesOn p r s bs v = (round_bytes p r (s ++ bs) ≡ (v.0, v.1 ++ bs)) × (v.0.0.latched ≡ r.latched)

line-GoesOn :
    (r : RequestReader) (s bs : Bytes)
    → (round_bytes request_line r s).0.1 ≡ none
    → GoesOn request_line r s bs (round_bytes request_line r s)
unfolding round_bytes read_line_result
line-GoesOn r s bs e =
    let (t, l) = read_line_result_go_on r (read_line s).1 e in
    let more = read_line-append s bs t l in
    let kept =
      Decides-none (blank r) (charge_line (blank r) t) (charge_line-Decides (blank r) t)
        (rw l at e) in
    subst (λ x. GoesOn request_line r s bs (read_line_result r (empty_reader, x), (read_line s).0))
      (sym l)
      (ap (λ (x : Bytes × LineResult). (read_line_result r (empty_reader, x.1), x.0)) more, kept)

pub round_bytes-GoesOn :
    (p : Phase) (r : RequestReader) (s bs : Bytes)
    → (round_bytes p r s).0.1 ≡ none
    → GoesOn p r s bs (round_bytes p r s)
unfolding round_bytes
round_bytes-GoesOn discarding r s bs e =
    unfold read_discard arm_next_request in
    ground (arith, drop-append_le r.body_bytes s bs, length-append s bs)
round_bytes-GoesOn body r s bs e = absurd (unfold read_body finish_request in ground arith)
round_bytes-GoesOn chunk_data r s bs e =
    let n = r.chunk_bytes + crlf_size in
    unfold read_chunk fail in
    ground (arith, drop-append_le n s bs, take-append_le n s bs, length-append s bs)
round_bytes-GoesOn _ r s bs e = line-GoesOn r s bs e

-- Where it waits with `v`, asking again with more bytes is asking once with all of them.
abbrev pub Waits : Phase → RequestReader → Bytes → Bytes → Outcome × Bytes → Type 0
Waits p r s bs v =
    (round_bytes p r (s ++ bs) ≡ round_bytes p v.0.0 (v.1 ++ bs))
    × (v.0.0.phase ≡ r.phase)
    × (v.0.0.latched ≡ r.latched)

discard-Waits :
    (r : RequestReader) (s bs : Bytes)
    → (round_bytes discarding (blank r) s).0.1 ≡ some nothing_yet
    → Waits discarding (blank r) s bs (round_bytes discarding (blank r) s)
unfolding round_bytes read_discard
discard-Waits r s bs e =
    let short : length s < r.body_bytes = unfold arm_next_request in ground arith in
    let most : min r.body_bytes (length s) ≡ length s = omega arith in
    let left = record (blank r) { body_bytes = r.body_bytes - length s } in
    let first : round_bytes discarding (blank r) s ≡ ((left, some nothing_yet), []) =
      rw
        (
          most,
          drop_all (length s) s (omega arith),
          lt→ltb 0 (r.body_bytes - length s) (omega arith),
        )
        refl in
    let more = min (r.body_bytes - length s) (length bs) in
    let both : min r.body_bytes (length (s ++ bs)) ≡ length s + more =
      omega (arith, length-append s bs) in
    let rest : r.body_bytes - (length s + more) ≡ r.body_bytes - length s - more = omega arith in
    subst (Waits discarding (blank r) s bs) (sym first)
      (rw (both, drop-append_ge s bs more, rest) refl, refl, refl)

line-Waits :
    (r : RequestReader) (s bs : Bytes)
    → (round_bytes request_line (blank r) s).0.1 ≡ some nothing_yet
    → Waits request_line (blank r) s bs (round_bytes request_line (blank r) s)
unfolding round_bytes read_line_result
line-Waits r s bs e =
    let l = read_line_result_wait (blank r) (read_line s).1 e in
    let first : round_bytes request_line (blank r) s ≡ ((blank r, some nothing_yet), s) =
      rw (l, read_line_result, read_line-no_line s l) refl in
    subst (Waits request_line (blank r) s bs) (sym first) (refl, refl, refl)

pub round_bytes-Waits :
    (p : Phase) (r : RequestReader) (s bs : Bytes)
    → (round_bytes p (blank r) s).0.1 ≡ some nothing_yet
    → Waits p (blank r) s bs (round_bytes p (blank r) s)
unfolding round_bytes
round_bytes-Waits discarding r s bs e = discard-Waits r s bs e
round_bytes-Waits body r s bs e = unfold read_body finish_request in ground arith
round_bytes-Waits chunk_data r s bs e = unfold read_chunk fail in ground arith
round_bytes-Waits _ r s bs e = line-Waits r s bs e
