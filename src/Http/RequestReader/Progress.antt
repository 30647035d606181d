-- ===== src/Http/RequestReader/Progress.antt =====
-- The loop of `next_request` ends: each round that goes on consumes bytes, or ends a discard.
use carafe.Base.{
  min, false, ℕ, zero, suc, ◌+◌, ◌*◌, ◌≤◌, ◌<◌, none, some, ◌≡◌, ◌≢◌, refl, sym, ap, ◌∙◌, inl, inr,
  arith, Bytes, Option-cases, length, length-drop,
}
use carafe.Http.Framing.{crlf_size}
use carafe.Http.LineReader.{line, find_crlf, empty_reader}
use carafe.Http.LineReader.Refinement.{IsValid, pending, read_line}
use carafe.Http.LineReader.Scan.{find_crlf_bound}
use carafe.Http.ReaderState.{
  Phase, request_line, body, discarding, chunk_data, RequestResult, failure, RequestReader,
  arm_next_request, finish_request, fail,
}
use carafe.Http.RequestReader.{
  read_line_result, read_discard, read_body, read_chunk, rounds, round_limit, next_request,
}
use carafe.Http.RequestReader.Patience.{read_line_result_go_on}
use carafe.Http.RequestReader.Stream.{blank, round_bytes, rounds_bytes, seen, rounds-rounds_bytes}

abbrev discard_left : Phase → ℕ
discard_left discarding = 1
discard_left _ = 0

-- What the rounds use up.
abbrev work_left : RequestReader → Bytes → ℕ
work_left r p = 2 * length p + discard_left r.phase

discard_left-le : (p : Phase) → discard_left p ≤ 1
discard_left-le discarding = omega arith
discard_left-le _ = omega arith

read_line-length : (p t : Bytes) → (read_line p).1 ≡ line t → length (read_line p).0 + 2 ≤ length p
unfolding read_line
read_line-length p t e = elim (Option-cases (find_crlf p)) [
  | inl n ↦ absurd (ground arith)
  | inr (i, n) ↦ ground (arith, find_crlf_bound p i n, length-drop (i + 2) p)
]

line_uses_up :
    (r s : RequestReader) (p : Bytes)
    → let v = round_bytes request_line r p in v.0.1 ≡ none → work_left v.0.0 v.1 < work_left s p
unfolding round_bytes
line_uses_up r s p e =
    let (t, l) = read_line_result_go_on r (read_line p).1 e in
    let o = read_line_result r (empty_reader, (read_line p).1) in
    omega (arith, read_line-length p t l, discard_left-le o.0.phase)

round_bytes_uses_up :
    (p : Phase) (r : RequestReader) (s : Bytes)
    → r.phase ≡ p
    → (round_bytes p r s).0.1 ≡ none
    → work_left (round_bytes p r s).0.0 (round_bytes p r s).1 < work_left r s
unfolding round_bytes
round_bytes_uses_up discarding r s at e =
    unfold read_discard arm_next_request in
    ground (arith, length-drop (min r.body_bytes (length s)) s)
round_bytes_uses_up body r s at e = unfold read_body finish_request in ground arith
round_bytes_uses_up chunk_data r s at e =
    unfold read_chunk fail in ground (arith, length-drop (r.chunk_bytes + crlf_size) s)
round_bytes_uses_up _ r s at e = line_uses_up r r s e

rounds_bytes_total :
    (n : ℕ) (r : RequestReader) (s : Bytes) → work_left r s < n → rounds_bytes n r s ≢ none
unfolding rounds_bytes
rounds_bytes_total zero r s h = absurd (omega arith)
rounds_bytes_total (suc n) r s h = elim (Option-cases (round_bytes r.phase r s).0.1) [
  | inl e ↦
      rw (e, rounds_bytes)
        (rounds_bytes_total n _ _ (omega (arith, round_bytes_uses_up r.phase r s refl e)))
  | inr (x, e) ↦ rw (e, rounds_bytes) (λ q. cc)
]

rounds_total :
    (r : RequestReader) → IsValid r.line_reader → rounds (round_limit r.line_reader) r ≢ none
rounds_total r v e =
    rounds_bytes_total (round_limit r.line_reader) (blank r) (pending r.line_reader)
      (omega (arith, discard_left-le r.phase, length-drop r.line_reader.begin r.line_reader.buffer))
      (sym (rounds-rounds_bytes (round_limit r.line_reader) r v) ∙ ap seen e)

-- For a reader whose line reader is valid, the loop of `next_request` ends: the rounds given to
-- it, two for each buffered byte and two more, are enough for a result.
pub next_request_total :
    (r : RequestReader)
    → IsValid r.line_reader
    → (q : RequestReader) × (result : RequestResult) × (next_request r ≡ some (q, result))
unfolding next_request
next_request_total r v = elim (Option-cases r.latched) [
  | inr (error, e) ↦ (
    record r { latched = some error },
    failure error false r.request.version,
    rw (e, next_request) refl,
  )
  | inl e ↦ elim (Option-cases (rounds (round_limit r.line_reader) r)) [
    | inl out ↦ absurd (rounds_total r v out)
    | inr ((q, result), done) ↦ (q, result, rw (e, next_request) done)
  ]
]
