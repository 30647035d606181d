-- ===== src/Http/RequestReader/Reach.antt =====
-- The readers that calls of `append` and `next_request` lead to, in any order, and what all of them hand over.
use carafe.Base.{true, false, some, subst, ◌≡◌, ◌⊎◌, inl, inr, refl, arith, Bytes, Option-cases}
use carafe.Http.Framing.{RequestError}
use carafe.Http.LineReader
use carafe.Http.ReaderState.{
  RequestResult, nothing_yet, complete, failure, RequestReader, append, new_reader,
}
use carafe.Http.Request.{Request}
use carafe.Http.RequestReader.{round_limit, next_request}
use carafe.Http.RequestReader.Latch.{Latches, rounds-Latches}
use carafe.Http.RequestReader.Limits.{IsWithin, IsBounded, Bounds, relined, rounds-Bounds}

pub data Reached : RequestReader → Type 0 where
  start : Reached new_reader
  read : {r : RequestReader} → Reached r → (bytes : Bytes) → Reached (append r bytes)
  ask :
      {r q : RequestReader} (x : RequestResult)
      → Reached r
      → next_request r ≡ some (q, x)
      → Reached q

-- Latched, or within bounds.
abbrev Sound : RequestReader → Type 0
Sound r = ((error : RequestError) × (r.latched ≡ some error)) ⊎ IsBounded r

abbrev Answered : RequestReader → RequestResult → Type 0
Answered q (complete request) = IsWithin request × Sound q
Answered q _ = Sound q

bounded_answer :
    (q : RequestReader) (x : RequestResult) → Bounds q x → Latches (q, some x) → Answered q x
bounded_answer q nothing_yet b l = inr b
bounded_answer q (complete request) (within, b) l = (within, inr b)
bounded_answer q (failure error true version) b l = inr b
bounded_answer q (failure error false version) b (latched, v) = inl (error, latched)

same_answer :
    (o p : RequestReader × RequestResult) → some o ≡ some p → Answered o.0 o.1 → Answered p.0 p.1
same_answer o p e a = let same : o ≡ p = cc in subst (λ z. Answered z.0 z.1) same a

latched_answer :
    (q r : RequestReader) (error : RequestError) (x : RequestResult)
    → r.latched ≡ some error
    → next_request r ≡ some (q, x)
    → Answered q x
unfolding next_request
latched_answer q r error x l e =
    same_answer (record r { latched = some error }, failure error false r.request.version) (q, x)
      (rw (l, next_request) at e) (inl (error, refl))

next_request-Answered :
    (r q : RequestReader) (x : RequestResult)
    → Sound r
    → next_request r ≡ some (q, x)
    → Answered q x
unfolding next_request
next_request-Answered r q x (inl (error, l)) e = latched_answer q r error x l e
next_request-Answered r q x (inr b) e = elim (Option-cases r.latched) [
  | inl l ↦
      let e = rw (l, next_request) at e in
      let n = round_limit r.line_reader in
      bounded_answer q x (rounds-Bounds n r q x b e) (rounds-Latches n r q x e)
  | inr (error, l) ↦ latched_answer q r error x l e
]

Answered-Sound : (q : RequestReader) (x : RequestResult) → Answered q x → Sound q
Answered-Sound q nothing_yet s = s
Answered-Sound q (complete request) (within, s) = s
Answered-Sound q (failure error continues version) s = s

append-Sound : (r : RequestReader) (bytes : Bytes) → Sound r → Sound (append r bytes)
unfolding append
append-Sound r bytes (inl latched) = inl latched
append-Sound r bytes (inr b) = inr (relined r (LineReader.append r.line_reader bytes) b)

Reached-Sound : {r : RequestReader} → Reached r → Sound r
Reached-Sound start =
    inr (record { counted = omega arith; few = omega arith; small = omega arith; promise = tt })
Reached-Sound (read {r} before bytes) = append-Sound r bytes (Reached-Sound before)
Reached-Sound (ask {r} {q} x before e) =
    Answered-Sound q x (next_request-Answered r q x (Reached-Sound before) e)

-- After any sequence of `append` and `next_request` calls on a new reader, a request that
-- `next_request` hands over has no more than `max_fields` header fields, and a body of no more
-- than `max_body_bytes` bytes.
pub Reached-IsWithin :
    (r q : RequestReader) (request : Request)
    → Reached r
    → next_request r ≡ some (q, complete request)
    → IsWithin request
Reached-IsWithin r q request before e =
    (next_request-Answered r q (complete request) (Reached-Sound before) e).0
