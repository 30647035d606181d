-- ===== src/Http/RequestReader/Stream.antt =====
-- `RequestReader` seen without the offsets of its line reader: a reader with no lines of its own, and
-- the bytes that are buffered and not consumed.
use carafe.Base.{ℕ, zero, suc, ◌+◌, Option, none, some, ◌≡◌, refl, sym, ap, subst, Bytes}
use carafe.Http.Framing.{crlf_size}
use carafe.Http.LineReader
use carafe.Http.LineReader.{LineReader, LineResult, empty_reader, next_line, discard}
use carafe.Http.LineReader.Refinement.{
  IsValid, pending, read_line, take_bytes, discard_bytes, next_line-read_line, take-take_bytes,
  discard-discard_bytes,
}
use carafe.Http.ReaderState.{
  Phase, body, discarding, chunk_data, RequestResult, RequestReader, Outcome,
}
use carafe.Http.RequestReader.{
  read_line_result, read_discard, read_body, read_chunk, read_body_bytes, read_next_line, round,
  rounds,
}
use carafe.Http.RequestReader.Rounds.{Keeps, rounds_inv}
use carafe.Http.RequestReader.Lines.{
  with_lines, outcome_with, read_line_result_lines, read_discard_lines, read_body_lines,
  read_chunk_lines,
}

abbrev pub blank : RequestReader → RequestReader
blank = with_lines empty_reader

-- One round on the bytes alone.
unfoldable pub round_bytes : Phase → RequestReader → Bytes → Outcome × Bytes
round_bytes discarding r p =
    let (q, n) = discard_bytes p r.body_bytes in (read_discard r (empty_reader, n), q)
round_bytes body r p = let (q, b) = take_bytes p r.body_bytes in (read_body r (empty_reader, b), q)
round_bytes chunk_data r p =
    let (q, b) = take_bytes p (r.chunk_bytes + crlf_size) in (read_chunk r (empty_reader, b), q)
round_bytes _ r p = let (q, res) = read_line p in (read_line_result r (empty_reader, res), q)

-- A round and its image agree: the same outcome but for the line reader, and the same bytes left.
abbrev pub Mirrors : Outcome → Outcome × Bytes → Type 0
Mirrors o v =
    IsValid o.0.line_reader × (outcome_with empty_reader o ≡ v.0) × (pending o.0.line_reader ≡ v.1)

-- A handler that never looks at the line reader, run on the lines and on the bytes.
module _ {X : Type 0} (f : RequestReader → LineReader × X → Outcome)
    (uniform : (k l m : LineReader) (r : RequestReader) (x : X)
      → f (with_lines k r) (l, x) ≡ outcome_with l (f r (m, x))) where
  transfer :
      (r : RequestReader) (n : LineReader × X) (v : Bytes × X)
      → IsValid n.0
      → pending n.0 ≡ v.0
      → n.1 ≡ v.1
      → Mirrors (f r n) (f (blank r) (empty_reader, v.1), v.0)
  transfer r n v w p a =
      let same = uniform r.line_reader n.0 empty_reader (blank r) n.1 in
      let alone = uniform empty_reader empty_reader empty_reader (blank r) v.1 in
      (rw same w, rw same (rw a (sym alone)), rw same p)

-- What a round does on the buffer it does on the bytes that the buffer stands for.
pub round-round_bytes :
    (p : Phase) (r : RequestReader)
    → IsValid r.line_reader
    → Mirrors (round p r) (round_bytes p (blank r) (pending r.line_reader))
unfolding round read_body_bytes read_next_line round_bytes
round-round_bytes discarding r v =
    let (w, p, a) = discard-discard_bytes r.line_reader r.body_bytes v in
    transfer read_discard read_discard_lines r (discard r.line_reader r.body_bytes)
      (discard_bytes (pending r.line_reader) r.body_bytes) w p a
round-round_bytes body r v =
    let (w, p, a) = take-take_bytes r.line_reader r.body_bytes v in
    transfer read_body read_body_lines r (LineReader.take r.line_reader r.body_bytes)
      (take_bytes (pending r.line_reader) r.body_bytes) w p a
round-round_bytes chunk_data r v =
    let (w, p, a) = take-take_bytes r.line_reader (r.chunk_bytes + crlf_size) v in
    transfer read_chunk read_chunk_lines r
      (LineReader.take r.line_reader (r.chunk_bytes + crlf_size))
      (take_bytes (pending r.line_reader) (r.chunk_bytes + crlf_size)) w p a
round-round_bytes _ r v =
    let (w, p, a) = next_line-read_line r.line_reader v in
    transfer read_line_result read_line_result_lines r (next_line r.line_reader)
      (read_line (pending r.line_reader)) w p a

-- The loop on the bytes alone.
unfoldable pub rounds_bytes :
    ℕ → RequestReader → Bytes → Option (RequestReader × Bytes × RequestResult)
rounds_bytes zero r p = none
rounds_bytes (suc n) r p =
    let (o, q) = round_bytes r.phase r p in
    elim o.1 [ none ↦ rounds_bytes n o.0 q | some result ↦ some (o.0, q, result) ]

-- The result of a loop, seen without the line reader's offsets.
abbrev pub seen :
    Option (RequestReader × RequestResult) → Option (RequestReader × Bytes × RequestResult)
seen none = none
seen (some (r, result)) = some (blank r, pending r.line_reader, result)

after_round :
    (n : ℕ) (o : Outcome) (v : Outcome × Bytes)
    → Mirrors o v
    → (IsValid o.0.line_reader
        → seen (rounds n o.0) ≡ rounds_bytes n (blank o.0) (pending o.0.line_reader))
    → seen (elim o.1 [ none ↦ rounds n o.0 | some result ↦ some (o.0, result) ])
      ≡ elim v.0.1 [ none ↦ rounds_bytes n v.0.0 v.1 | some result ↦ some (v.0.0, v.1, result) ]
after_round n (q, none) v (w, m, p) later =
    let state : blank q ≡ v.0.0 = ap (λ (x : Outcome). x.0) m in
    let answer : none ≡ v.0.1 = ap (λ (x : Outcome). x.1) m in rw (← answer, ← state, ← p) (later w)
after_round n (q, some result) v (w, m, p) later =
    let state : blank q ≡ v.0.0 = ap (λ (x : Outcome). x.0) m in
    let answer : some result ≡ v.0.1 = ap (λ (x : Outcome). x.1) m in
    rw (← answer, ← state, ← p) refl

-- The loop on the buffer is the loop on the bytes.
pub rounds-rounds_bytes :
    (n : ℕ) (r : RequestReader)
    → IsValid r.line_reader
    → seen (rounds n r) ≡ rounds_bytes n (blank r) (pending r.line_reader)
unfolding rounds rounds_bytes
rounds-rounds_bytes zero r v = refl
rounds-rounds_bytes (suc n) r v =
    let o = round r.phase r in
    after_round n o (round_bytes r.phase (blank r) (pending r.line_reader))
      (round-round_bytes r.phase r v) (rounds-rounds_bytes n o.0)

round-IsValid :
    (p : Phase) (r : RequestReader)
    → IsValid r.line_reader
    → (o : Outcome) → round p r ≡ o
    → Keeps (λ q. IsValid q.line_reader) (λ q x. IsValid q.line_reader) o
round-IsValid p r v (q, none) e =
    subst (λ (o : Outcome). IsValid o.0.line_reader) e (round-round_bytes p r v).0
round-IsValid p r v (q, some x) e =
    subst (λ (o : Outcome). IsValid o.0.line_reader) e (round-round_bytes p r v).0

pub rounds-IsValid :
    (n : ℕ) (r q : RequestReader) (x : RequestResult)
    → IsValid r.line_reader
    → rounds n r ≡ some (q, x)
    → IsValid q.line_reader
rounds-IsValid =
    rounds_inv (λ q. IsValid q.line_reader) (λ q x. IsValid q.line_reader)
      (λ r v. round-IsValid r.phase r v (round r.phase r) refl)
