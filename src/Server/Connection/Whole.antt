-- ===== src/Server/Connection/Whole.antt =====
-- `next_request` of src/server/connection.cpp against the reader it drives: how the bytes were cut into
-- reads is forgotten.
use carafe.Base.{
  ℕ, Option, none, some, List, [], ◌∷◌, ◌++◌, ◌≡◌, refl, sym, ap, subst, ◌∙◌, inl, inr, Bytes,
  Bool-cases, ◌==◌,
}
use carafe.Http.LineReader.Refinement.{IsValid, pending, append-pending}
use carafe.Http.ReaderState.{RequestReader, append, RequestResult, nothing_yet, complete, failure}
use carafe.Http.RequestReader
use carafe.Http.RequestReader.Dribble.{next_request-append}
use carafe.Http.RequestReader.Pieces.{
  waits-IsValid, next_request-IsValid, next_request-append-append, next_request-append-nil,
}
use carafe.Http.RequestReader.Stream.{blank, seen}
use carafe.Net.Socket.{Recv, ReadResult, read}
use carafe.Server.Connection.{
  ConnectionResult, read_failed, request_failed, finished, received, Connection, ReadTurn, Progress,
  apply_read_deadline, take_chunk, use_chunk, use_read, read_round, use_parsed, next_request,
}

abbrev pub chunk_bytes : Option (ReadResult × List Recv) → Bytes
chunk_bytes none = []
chunk_bytes (some (chunk, later)) = elim chunk.bytes [ none ↦ [] | some bytes ↦ bytes ]

-- The bytes that rounds brought.
abbrev pub chunks : List ReadTurn → Bytes
chunks [] = []
chunks (turn ∷ turns) = chunk_bytes (read turn.recvs) ++ chunks turns

-- A result that is the reader's.
abbrev pub parsed_as : ConnectionResult → Option RequestResult
parsed_as (read_failed os_error) = none
parsed_as finished = none
parsed_as (request_failed error stream_continues version) =
    some (failure error stream_continues version)
parsed_as (received request) = some (complete request)

-- The rounds that were used, as one block of bytes.
pub record Parses (reader : RequestReader) (turns : List ReadTurn) (after : RequestReader)
    (later : List ReadTurn) (x : RequestResult) : Type 0 where
  pub used : List ReadTurn
  pub split : turns ≡ used ++ later
  pub valid : IsValid after.line_reader
  pub whole :
      seen (RequestReader.next_request (append reader (chunks used)))
      ≡ some (blank after, pending after.line_reader, x)

abbrev ParsesTo :
    RequestReader → List ReadTurn → Connection × ConnectionResult × List ReadTurn → Type 0
ParsesTo reader turns (after, result, later) =
    (x : RequestResult) → parsed_as result ≡ some x → Parses reader turns after.reader later x

abbrev Outcomes : RequestReader → List ReadTurn → Progress → Type 0
Outcomes reader turns p =
    (t : Connection × ConnectionResult × List ReadTurn) → p ≡ some t → ParsesTo reader turns t

some-Outcomes :
    (reader : RequestReader) (turns : List ReadTurn)
    (t : Connection × ConnectionResult × List ReadTurn)
    → ParsesTo reader turns t
    → Outcomes reader turns (some t)
some-Outcomes reader turns t h u e = let same : t ≡ u = cc in subst (ParsesTo reader turns) same h

none-Outcomes : (reader : RequestReader) (turns : List ReadTurn) → Outcomes reader turns none
none-Outcomes reader turns u e = absurd (cc)

-- The reader answered at once.
at_once :
    (conn : Connection) (turns : List ReadTurn) (q : RequestReader) (x y : RequestResult)
    → IsValid conn.reader.line_reader
    → RequestReader.next_request conn.reader ≡ some (q, x)
    → ◌≡◌ {A = Option RequestResult} (some x) (some y)
    → Parses conn.reader turns q turns y
at_once conn turns q x y v e f = record {
  used = [];
  split = refl;
  valid = next_request-IsValid conn.reader q x v e;
  whole =
      next_request-append-nil conn.reader v ∙ ap seen e ∙ (let same : x ≡ y = cc in rw same refl);
}

use_parsed-Outcomes :
    (go : Connection → Progress) (conn : Connection) (turns : List ReadTurn)
    (o : Option (RequestReader × RequestResult))
    → IsValid conn.reader.line_reader
    → RequestReader.next_request conn.reader ≡ o
    → ((q : RequestReader)
        → RequestReader.next_request conn.reader ≡ some (q, nothing_yet)
        → Outcomes conn.reader turns (go (record conn { reader = q })))
    → Outcomes conn.reader turns (use_parsed go conn turns o)
use_parsed-Outcomes go conn turns none v e h = none-Outcomes conn.reader turns
use_parsed-Outcomes go conn turns (some (q, nothing_yet)) v e h = h q e
use_parsed-Outcomes go conn turns (some (q, failure error c version)) v e h =
    some-Outcomes conn.reader turns _
      (λ y f. at_once conn turns q (failure error c version) y v e f)
use_parsed-Outcomes go conn turns (some (q, complete request)) v e h =
    some-Outcomes conn.reader turns _ (λ y f. at_once conn turns q (complete request) y v e f)

-- The reader waited, and got a chunk.
fed_on :
    (reader q after : RequestReader) (bytes : Bytes) (turn : ReadTurn) (turns later : List ReadTurn)
    (x : RequestResult)
    → IsValid reader.line_reader
    → RequestReader.next_request reader ≡ some (q, nothing_yet)
    → chunk_bytes (read turn.recvs) ≡ bytes
    → Parses (append q bytes) turns after later x
    → Parses reader (turn ∷ turns) after later x
fed_on reader q after bytes turn turns later x v e c rest =
    let (w, l) = waits-IsValid reader q v e in
    record {
      used = turn ∷ rest.used;
      split = ap (◌∷◌ turn) rest.split;
      valid = rest.valid;
      whole =
          ap (λ s. seen (RequestReader.next_request (append reader (s ++ chunks rest.used)))) c
          ∙ next_request-append reader q (bytes ++ chunks rest.used) v e
          ∙ sym (next_request-append-append q bytes (chunks rest.used) w l)
          ∙ rest.whole;
    }

pub take_chunk-reader :
    (conn : Connection) (bytes : Bytes) (now : ℕ)
    → (take_chunk conn bytes now).reader ≡ append conn.reader bytes
unfolding take_chunk
take_chunk-reader conn bytes now = elim (Bool-cases conn.request_in_progress) [
  | inl e ↦ rw (e, take_chunk) refl
  | inr e ↦ rw (e, take_chunk) refl
]

pub append-IsValid :
    (reader : RequestReader) (bytes : Bytes)
    → IsValid reader.line_reader
    → IsValid (append reader bytes).line_reader
unfolding append
append-IsValid reader bytes v = (append-pending reader.line_reader bytes v).0

-- A round that follows a parse of `reader` that gave nothing yet.
module _ (reader : RequestReader) (turn : ReadTurn) (turns : List ReadTurn)
    (again : Connection → Progress) (conn : Connection) (v : IsValid reader.line_reader)
    (e : RequestReader.next_request reader ≡ some (conn.reader, nothing_yet))
    (h : (fed : Connection)
      → IsValid fed.reader.line_reader
      → Outcomes fed.reader turns (again fed)) where
  use_chunk-Outcomes :
      (bytes : Option Bytes)
      → elim bytes [ none ↦ [] | some b ↦ b ] ≡ chunk_bytes (read turn.recvs)
      → Outcomes reader (turn ∷ turns) (use_chunk again conn turn.after turns bytes)
  use_chunk-Outcomes none c = some-Outcomes reader (turn ∷ turns) _ (λ y f. absurd (cc))
  use_chunk-Outcomes (some bytes) c = λ t f y g.
      let fed = take_chunk conn bytes turn.after in
      let same = take_chunk-reader conn bytes turn.after in
      let (w, l) = waits-IsValid reader conn.reader v e in
      fed_on reader conn.reader t.0.reader bytes turn turns t.2 y v e (sym c) (
        subst (λ r. Parses r turns t.0.reader t.2 y) same
          (h fed
            (subst (λ (r : RequestReader). IsValid r.line_reader) (sym same)
              (append-IsValid conn.reader bytes w))
            t f y g))

  use_read-Outcomes :
      (o : Option (ReadResult × List Recv))
      → read turn.recvs ≡ o
      → Outcomes reader (turn ∷ turns) (use_read again conn turn.after turns o)
  use_read-Outcomes none c = none-Outcomes reader (turn ∷ turns)
  use_read-Outcomes (some (chunk, left)) c = elim (Bool-cases (chunk.os_error == 0)) [
    | inr failed ↦ rw failed (some-Outcomes reader (turn ∷ turns) _ (λ y f. absurd (cc)))
    | inl fine ↦ rw fine (use_chunk-Outcomes chunk.bytes (ap chunk_bytes (sym c)))
  ]

  read_round-Outcomes : Outcomes reader (turn ∷ turns) (read_round again conn turn turns)
  unfolding read_round
  read_round-Outcomes =
      elim (Bool-cases ((apply_read_deadline conn turn.now turn.refused).1 == 0)) [
        | inr refused ↦
            rw (refused, read_round) (some-Outcomes reader (turn ∷ turns) _ (λ y f. absurd (cc)))
        | inl bounded ↦ rw (bounded, read_round) (use_read-Outcomes (read turn.recvs) refl)
      ]

next_request-Outcomes :
    (turns : List ReadTurn) (conn : Connection)
    → IsValid conn.reader.line_reader
    → Outcomes conn.reader turns (next_request turns conn)
unfolding next_request
next_request-Outcomes [] conn v =
    use_parsed-Outcomes (λ waiting. none) conn [] (RequestReader.next_request conn.reader) v refl
      (λ q e. none-Outcomes conn.reader [])
next_request-Outcomes (turn ∷ turns) conn v =
    use_parsed-Outcomes (λ waiting. read_round (next_request turns) waiting turn turns) conn
      (turn ∷ turns) (RequestReader.next_request conn.reader) v refl
      (λ q e.
        read_round-Outcomes conn.reader turn turns (next_request turns) (record conn { reader = q })
          v e (next_request-Outcomes turns))

-- For a connection whose line reader is valid: if `next_request` reports a request or a malformed
-- one, then some rounds were used up, and the request reader reports the same, with the same state
-- and the same bytes left, when the bytes of these rounds are appended all at once.
pub next_request-Parses :
    (turns later : List ReadTurn) (conn after : Connection) (result : ConnectionResult)
    (x : RequestResult)
    → IsValid conn.reader.line_reader
    → next_request turns conn ≡ some (after, result, later)
    → parsed_as result ≡ some x
    → Parses conn.reader turns after.reader later x
next_request-Parses turns later conn after result x v e f =
    next_request-Outcomes turns conn v (after, result, later) e x f
