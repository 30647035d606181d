-- ===== src/Http/RequestReader/Stable.antt =====
-- A request that `next_request` of src/http/request_reader.cpp hands over does not depend on the bytes
-- behind it.
use carafe.Base.{
  ℕ, zero, suc, Option, none, some, ◌++◌, ◌≡◌, refl, sym, ap, subst, ◌∙◌, inl, inr, arith, Bytes,
  Option-cases, length-append, drop-append_le, take-append_le,
}
use carafe.Http.LineReader.{LineResult, line_too_long, no_line, line, empty_reader}
use carafe.Http.LineReader.History.{empty_reader-IsValid}
use carafe.Http.LineReader.Refinement.{IsValid, pending, read_line}
use carafe.Http.ReaderState.{
  Phase, request_line, body, discarding, chunk_data, RequestResult, complete, RequestReader,
  Outcome, append, arm_next_request, finish_request, fail,
}
use carafe.Http.Request.{Request}
use carafe.Http.RequestReader.{read_line_result, read_discard, read_body, read_chunk, next_request}
use carafe.Http.RequestReader.Dribble.{resume, append_result, rounds_bytes_unique}
use carafe.Http.RequestReader.Patience.{round_bytes-GoesOn, read_line-append}
use carafe.Http.RequestReader.Stream.{blank, round_bytes, rounds_bytes, seen}

-- Only a whole line hands a request over.
read_line_result_complete :
    (r : RequestReader) (res : LineResult) (x : Request)
    → (read_line_result r (empty_reader, res)).1 ≡ some (complete x)
    → (t : Bytes) × (res ≡ line t)
unfolding read_line_result fail
read_line_result_complete r line_too_long x e = absurd (cc)
read_line_result_complete r no_line x e = absurd (cc)
read_line_result_complete r (line t) x e = (t, refl)

abbrev Same : Phase → RequestReader → Bytes → Bytes → Outcome × Bytes → Type 0
Same p r s bs v = round_bytes p r (s ++ bs) ≡ (v.0, v.1 ++ bs)

line-Same :
    (r : RequestReader) (s bs : Bytes) (x : Request)
    → (round_bytes request_line r s).0.1 ≡ some (complete x)
    → Same request_line r s bs (round_bytes request_line r s)
unfolding round_bytes
line-Same r s bs x e =
    let (t, l) = read_line_result_complete r (read_line s).1 x e in
    let more = read_line-append s bs t l in
    subst (λ y. Same request_line r s bs (read_line_result r (empty_reader, y), (read_line s).0))
      (sym l) (ap (λ (y : Bytes × LineResult). (read_line_result r (empty_reader, y.1), y.0)) more)

round_bytes-Same :
    (p : Phase) (r : RequestReader) (s bs : Bytes) (x : Request)
    → (round_bytes p r s).0.1 ≡ some (complete x)
    → Same p r s bs (round_bytes p r s)
unfolding round_bytes
round_bytes-Same discarding r s bs x e =
    absurd (unfold read_discard arm_next_request in ground arith)
round_bytes-Same body r s bs x e =
    unfold read_body finish_request in
    ground (
      arith,
      drop-append_le r.body_bytes s bs,
      take-append_le r.body_bytes s bs,
      length-append s bs,
    )
round_bytes-Same chunk_data r s bs x e = absurd (unfold read_chunk fail in ground arith)
round_bytes-Same _ r s bs x e = line-Same r s bs x e

rounds_bytes-append :
    (n : ℕ) (r q : RequestReader) (s t bs : Bytes) (x : Request)
    → rounds_bytes n r s ≡ some (q, t, complete x)
    → rounds_bytes n r (s ++ bs) ≡ some (q, t ++ bs, complete x)
unfolding rounds_bytes
rounds_bytes-append zero r q s t bs x e = absurd (cc)
rounds_bytes-append (suc n) r q s t bs x e =
    let v = round_bytes r.phase r s in
    elim (Option-cases v.0.1) [
      | inl goes_on ↦
          let (g, l) = round_bytes-GoesOn r.phase r s bs goes_on in
          let rest : rounds_bytes n v.0.0 v.1 ≡ some (q, t, complete x) =
            rw (goes_on, rounds_bytes) at e in
          ap (resume n) g ∙ rw (goes_on, resume) (rounds_bytes-append n v.0.0 q v.1 t bs x rest)
      | inr (y, answered) ↦
          let last : ◌≡◌ {A = Option (RequestReader × Bytes × RequestResult)} (some (v.0.0, v.1, y))
              (some (q, t, complete x)) =
            rw (answered, rounds_bytes) at e in
          let state : v.0.0 ≡ q = cc in
          let left : v.1 ≡ t = cc in
          let done : y ≡ complete x = cc in
          ap (resume n) (round_bytes-Same r.phase r s bs x (answered ∙ ap some done))
          ∙ rw (answered, resume, state, left, done) refl
    ]

-- What a reader reports of all the bytes that it has and gets.
abbrev pub reports : RequestReader → Bytes → Option (RequestReader × Bytes × RequestResult)
reports r s = seen (next_request (append r s))

complete_unlatched :
    (r q : RequestReader) (s t : Bytes) (x : Request)
    → reports r s ≡ some (q, t, complete x)
    → r.latched ≡ none
unfolding next_request append
complete_unlatched r q s t x e = elim (Option-cases r.latched) [
  | inl l ↦ l
  | inr (error, l) ↦ absurd (cc (rw (l, next_request) at e))
]

-- If the reader hands over a request, then a reader without its offsets, which is given the bytes that
-- it held, what it got and more, hands over the same one and has the more left over.
pub reports-append :
    (r q : RequestReader) (s t bs : Bytes) (x : Request)
    → IsValid r.line_reader
    → reports r s ≡ some (q, t, complete x)
    → reports (blank r) (pending r.line_reader ++ s ++ bs) ≡ some (q, t ++ bs, complete x)
reports-append r q s t bs x v e =
    let l = complete_unlatched r q s t x e in
    let (n, y, ey, sy) = append_result r s v l in
    let (m, z, ez, sz) =
      append_result (blank r) (pending r.line_reader ++ s ++ bs) empty_reader-IsValid l in
    let more =
      rounds_bytes-append n (blank r) q (pending r.line_reader ++ s) t bs x (ey ∙ sym sy ∙ e) in
    sz
    ∙ rounds_bytes_unique m n z (q, t ++ bs, complete x) (blank r)
        (pending r.line_reader ++ s ++ bs) ez more
