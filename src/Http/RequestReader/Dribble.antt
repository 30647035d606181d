-- ===== src/Http/RequestReader/Dribble.antt =====
-- How a request is cut into reads does not matter: a reader that was asked too early answers as one
-- that was asked once with all the bytes.
use carafe.Base.{
  ℕ, zero, suc, ◌+◌, ◌≤◌, Option, none, some, ◌++◌, ◌≡◌, sym, ap, subst, ◌∙◌, inl, inr, arith,
  Bytes, Option-cases,
}
use carafe.Http.LineReader.{empty_reader}
use carafe.Http.LineReader.Refinement.{IsValid, pending, append-pending}
use carafe.Http.ReaderState.{
  Phase, body, discarding, chunk_data, RequestResult, nothing_yet, RequestReader, Outcome, append,
}
use carafe.Http.RequestReader.{rounds, round_limit, next_request}
use carafe.Http.RequestReader.Lines.{
  read_line_result_lines, read_discard_lines, read_body_lines, read_chunk_lines,
}
use carafe.Http.RequestReader.Patience.{round_bytes-GoesOn, round_bytes-Waits}
use carafe.Http.RequestReader.Progress.{next_request_total}
use carafe.Http.RequestReader.Stream.{
  blank, round_bytes, rounds_bytes, seen, rounds-rounds_bytes, rounds-IsValid,
}

-- A round on bytes leaves no lines.
round_bytes-blank :
    (p : Phase) (r : RequestReader) (s : Bytes)
    → blank (round_bytes p r s).0.0 ≡ (round_bytes p r s).0.0
unfolding round_bytes
round_bytes-blank discarding r s =
    sym (ap (λ (o : Outcome). o.0) (read_discard_lines r.line_reader empty_reader empty_reader r _))
round_bytes-blank body r s =
    sym (ap (λ (o : Outcome). o.0) (read_body_lines r.line_reader empty_reader empty_reader r _))
round_bytes-blank chunk_data r s =
    sym (ap (λ (o : Outcome). o.0) (read_chunk_lines r.line_reader empty_reader empty_reader r _))
round_bytes-blank _ r s =
    sym (
      ap (λ (o : Outcome). o.0)
        (read_line_result_lines r.line_reader empty_reader empty_reader r _))

-- What the loop does with the outcome of a round.
abbrev pub resume : ℕ → Outcome × Bytes → Option (RequestReader × Bytes × RequestResult)
resume n v = elim v.0.1 [
  | none ↦ rounds_bytes n v.0.0 v.1
  | some result ↦ some (v.0.0, v.1, result)
]

resume-more :
    (n k : ℕ) (v : Outcome × Bytes) (x : RequestReader × Bytes × RequestResult)
    → ((r : RequestReader) (s : Bytes) → rounds_bytes n r s ≡ some x → rounds_bytes k r s ≡ some x)
    → resume n v ≡ some x
    → resume k v ≡ some x
resume-more n k ((q, none), s) x h e = h q s e
resume-more n k ((q, some y), s) x h e = e

-- More rounds change nothing once there is a result.
pub rounds_bytes-more :
    (n k : ℕ) (x : RequestReader × Bytes × RequestResult) (r : RequestReader) (s : Bytes)
    → n ≤ k
    → rounds_bytes n r s ≡ some x
    → rounds_bytes k r s ≡ some x
unfolding rounds_bytes
rounds_bytes-more zero k x r s h e = absurd (cc)
rounds_bytes-more (suc n) zero x r s h e = absurd (omega arith)
rounds_bytes-more (suc n) (suc k) x r s h e =
    resume-more n k (round_bytes r.phase r s) x (λ q t. rounds_bytes-more n k x q t (omega arith)) e

pub rounds_bytes_unique :
    (n k : ℕ) (x y : RequestReader × Bytes × RequestResult) (r : RequestReader) (s : Bytes)
    → rounds_bytes n r s ≡ some x
    → rounds_bytes k r s ≡ some y
    → some x ≡ some y
rounds_bytes_unique n k x y r s e f =
    sym (rounds_bytes-more n (n + k) x r s (omega arith) e)
    ∙ rounds_bytes-more k (n + k) y r s (omega arith) f

-- Whatever `q` and `t` come to with `bs` behind them, `r` and `s` come to.
abbrev Later : ℕ → RequestReader → Bytes → RequestReader → Bytes → Bytes → Type 0
Later n r s q t bs =
    (m k : ℕ) (x : RequestReader × Bytes × RequestResult)
    → n + m ≤ k
    → rounds_bytes m q (t ++ bs) ≡ some x
    → rounds_bytes k (blank r) (s ++ bs) ≡ some x

abbrev Waited : ℕ → RequestReader → Bytes → RequestReader → Bytes → Bytes → Type 0
Waited n r s q t bs = Later n r s q t bs × (q.latched ≡ r.latched)

-- The first round of `r` goes on with `w` and `u`.
went_on :
    (n : ℕ) (r q : RequestReader) (w : Outcome) (s u t bs : Bytes)
    → round_bytes r.phase (blank r) (s ++ bs) ≡ (w, u ++ bs)
    → w.1 ≡ none
    → blank w.0 ≡ w.0
    → w.0.latched ≡ r.latched
    → Waited n w.0 u q t bs
    → Waited (suc n) r s q t bs
unfolding rounds_bytes
went_on n r q w s u t bs g e b l (later, lat) = (go, lat ∙ l)
  where
    go : Later (suc n) r s q t bs
    go m zero x h f = absurd (omega arith)
    go m (suc k) x h f =
        ap (resume k) g
        ∙ rw e (subst (λ z. rounds_bytes k z (u ++ bs) ≡ some x) b (later m k x (omega arith) f))

-- The first round of `r` waits with `q` and `t`.
waited :
    (n : ℕ) (r q : RequestReader) (s t bs : Bytes)
    → round_bytes r.phase (blank r) (s ++ bs) ≡ round_bytes r.phase q (t ++ bs)
    → q.phase ≡ r.phase
    → Later (suc n) r s q t bs
unfolding rounds_bytes
waited n r q s t bs g p zero k x h f = absurd (cc)
waited n r q s t bs g p (suc m) zero x h f = absurd (omega arith)
waited n r q s t bs g p (suc m) (suc k) x h f =
    ap (resume k) g
    ∙ resume-more m k (round_bytes r.phase q (t ++ bs)) x
        (λ z u. rounds_bytes-more m k x z u (omega arith))
        (subst (λ y. resume m (round_bytes y q (t ++ bs)) ≡ some x) p f)

pub rounds_bytes_waits :
    (n : ℕ) (r q : RequestReader) (s t bs : Bytes)
    → rounds_bytes n (blank r) s ≡ some (q, t, nothing_yet)
    → Waited n r s q t bs
unfolding rounds_bytes
rounds_bytes_waits zero r q s t bs e = absurd (cc)
rounds_bytes_waits (suc n) r q s t bs e =
    let v = round_bytes r.phase (blank r) s in
    elim (Option-cases v.0.1) [
      | inl none_yet ↦
          let (g, l) = round_bytes-GoesOn r.phase (blank r) s bs none_yet in
          let b = round_bytes-blank r.phase (blank r) s in
          let rest : rounds_bytes n v.0.0 v.1 ≡ some (q, t, nothing_yet) =
            rw (none_yet, rounds_bytes) at e in
          went_on n r q v.0 s v.1 t bs g none_yet b l (
            rounds_bytes_waits n v.0.0 q v.1 t bs
              (subst (λ z. rounds_bytes n z v.1 ≡ some (q, t, nothing_yet)) (sym b) rest))
      | inr (x, answered) ↦
          let last : ◌≡◌ {A = Option (RequestReader × Bytes × RequestResult)} (some (v.0.0, v.1, x))
              (some (q, t, nothing_yet)) =
            rw (answered, rounds_bytes) at e in
          let state : v.0.0 ≡ q = cc in
          let left : v.1 ≡ t = cc in
          let early : x ≡ nothing_yet = cc in
          let (g, p, l) = round_bytes-Waits r.phase r s bs (answered ∙ ap some early) in
          (waited n r q s t bs (rw (state, left) at g) (rw state at p), rw state at l)
    ]

pub next_request_unlatched :
    (r : RequestReader) → r.latched ≡ none → next_request r ≡ rounds (round_limit r.line_reader) r
unfolding next_request
next_request_unlatched r l = ground arith

pub waits_unlatched :
    (r q : RequestReader) → next_request r ≡ some (q, nothing_yet) → r.latched ≡ none
unfolding next_request
waits_unlatched r q e = elim (Option-cases r.latched) [
  | inl l ↦ l
  | inr (error, l) ↦ absurd (cc (rw (l, next_request) at e))
]

-- A result of `next_request` on a reader that has got more bytes, as a result of the loop on bytes.
pub append_result :
    (r : RequestReader) (bytes : Bytes)
    → IsValid r.line_reader
    → r.latched ≡ none
    → (n : ℕ) × (x : RequestReader × Bytes × RequestResult) × (rounds_bytes n
          (blank r)
          (pending r.line_reader ++ bytes)
        ≡ some x)
      × (seen (next_request (append r bytes)) ≡ some x)
unfolding append
append_result r bytes v l =
    let a = append r bytes in
    let (w, p) = append-pending r.line_reader bytes v in
    let (q, x, e) = next_request_total a w in
    let n = round_limit a.line_reader in
    let done = sym (next_request_unlatched a l) ∙ e in
    (
      n,
      (blank q, pending q.line_reader, x),
      rw p at (sym (rounds-rounds_bytes n a w) ∙ ap seen done),
      ap seen e,
    )

-- For a reader whose line reader is valid: if `next_request` reports nothing yet, then more bytes
-- appended afterwards give the same result, the same reader but for the offsets of its line
-- reader, and the same bytes left over, as they give when appended to the reader that was never
-- asked.
pub next_request-append :
    (r q : RequestReader) (bytes : Bytes)
    → IsValid r.line_reader
    → next_request r ≡ some (q, nothing_yet)
    → seen (next_request (append r bytes)) ≡ seen (next_request (append q bytes))
next_request-append r q bytes v e =
    let l = waits_unlatched r q e in
    let n = round_limit r.line_reader in
    let ran = sym (next_request_unlatched r l) ∙ e in
    let w = rounds-IsValid n r q nothing_yet v ran in
    let early = sym (rounds-rounds_bytes n r v) ∙ ap seen ran in
    let (later, lq) =
      rounds_bytes_waits n r (blank q) (pending r.line_reader) (pending q.line_reader) bytes
        early in
    let (k, x, ex, sx) = append_result r bytes v l in
    let (m, y, ey, sy) = append_result q bytes w (lq ∙ l) in
    let all = later m (n + m) y (omega arith) ey in
    sx
    ∙ rounds_bytes_unique k (n + m) x y (blank r) (pending r.line_reader ++ bytes) ex all
    ∙ sym sy
