-- ===== src/Http/RequestReader/Pieces.antt =====
-- Bytes appended in two pieces, or none at all: what a caller of `next_request` in
-- src/http/request_reader.cpp needs to feed it chunk by chunk.
use carafe.Base.{
  none, some, [], ◌++◌, ◌≡◌, refl, sym, ap, subst, ◌∙◌, inl, inr, append-nil, append_assoc, Bytes,
  Option-cases,
}
use carafe.Http.LineReader
use carafe.Http.LineReader.Refinement.{IsValid, pending, append-pending}
use carafe.Http.ReaderState.{RequestResult, nothing_yet, RequestReader, append}
use carafe.Http.RequestReader.{round_limit, next_request}
use carafe.Http.RequestReader.Dribble.{
  append_result, rounds_bytes_unique, rounds_bytes_waits, next_request_unlatched, waits_unlatched,
}
use carafe.Http.RequestReader.Progress.{next_request_total}
use carafe.Http.RequestReader.Stream.{
  blank, rounds_bytes, seen, rounds-rounds_bytes, rounds-IsValid,
}

-- A reader that was asked too early is still valid, and reports no failure.
pub waits-IsValid :
    (r q : RequestReader)
    → IsValid r.line_reader
    → next_request r ≡ some (q, nothing_yet)
    → IsValid q.line_reader × (q.latched ≡ none)
waits-IsValid r q v e =
    let l = waits_unlatched r q e in
    let n = round_limit r.line_reader in
    let ran = sym (next_request_unlatched r l) ∙ e in
    let early = sym (rounds-rounds_bytes n r v) ∙ ap seen ran in
    let (later, lq) =
      rounds_bytes_waits n r (blank q) (pending r.line_reader) (pending q.line_reader) [] early in
    (rounds-IsValid n r q nothing_yet v ran, lq ∙ l)

pub next_request-append-append :
    (r : RequestReader) (a b : Bytes)
    → IsValid r.line_reader
    → r.latched ≡ none
    → seen (next_request (append (append r a) b)) ≡ seen (next_request (append r (a ++ b)))
unfolding append
next_request-append-append r a b v l =
    let (w, p) = append-pending r.line_reader a v in
    let (n, x, ex, sx) = append_result (append r a) b w l in
    let (k, y, ey, sy) = append_result r (a ++ b) v l in
    let bytes : pending (LineReader.append r.line_reader a) ++ b
        ≡ pending r.line_reader ++ (a ++ b) =
      ap (λ s. s ++ b) p ∙ append_assoc (pending r.line_reader) a b in
    sx
    ∙ rounds_bytes_unique n k x y (blank r) (pending r.line_reader ++ (a ++ b))
        (subst (λ s. rounds_bytes n (blank r) s ≡ some x) bytes ex) ey
    ∙ sym sy

pub next_request-append-nil :
    (r : RequestReader)
    → IsValid r.line_reader
    → seen (next_request (append r [])) ≡ seen (next_request r)
unfolding append next_request
next_request-append-nil r v = elim (Option-cases r.latched) [
  | inr (error, l) ↦
      let (w, p) = append-pending r.line_reader [] v in
      let bytes = p ∙ append-nil (pending r.line_reader) in rw (l, bytes, next_request) refl
  | inl l ↦
      let (n, x, ex, sx) = append_result r [] v l in
      let (q, y, ey) = next_request_total r v in
      let m = round_limit r.line_reader in
      let done = sym (next_request_unlatched r l) ∙ ey in
      sx
      ∙ rounds_bytes_unique n m x (blank q, pending q.line_reader, y) (blank r)
          (pending r.line_reader)
          (subst (λ s. rounds_bytes n (blank r) s ≡ some x) (append-nil (pending r.line_reader)) ex)
          (sym (rounds-rounds_bytes m r v) ∙ ap seen done)
      ∙ sym (ap seen ey)
]

-- Whatever it reports, a reader stays valid.
pub next_request-IsValid :
    (r q : RequestReader) (x : RequestResult)
    → IsValid r.line_reader
    → next_request r ≡ some (q, x)
    → IsValid q.line_reader
unfolding next_request
next_request-IsValid r q x v e = elim (Option-cases r.latched) [
  | inr (error, l) ↦
      let same : r.line_reader ≡ q.line_reader = cc (rw (l, next_request) at e) in
      subst IsValid same v
  | inl l ↦
      rounds-IsValid (round_limit r.line_reader) r q x v (sym (next_request_unlatched r l) ∙ e)
]
