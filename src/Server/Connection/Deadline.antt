-- ===== src/Server/Connection/Deadline.antt =====
-- The deadline of a request in src/server/connection.cpp, set by its first bytes.
use carafe.Base.{
  ℕ, ◌+◌, ◌*◌, true, false, Option, none, some, List, [], ◌∷◌, ◌≡◌, refl, sym, subst, ◌∙◌, inl, inr,
  arith, Bytes, Bool-cases, ◌==◌, if◌then◌else◌,
}
use carafe.Http.ReaderState.{RequestReader, RequestResult, nothing_yet, complete, failure}
use carafe.Http.RequestReader
use carafe.Net.Socket.{Recv, ReadResult, read}
use carafe.Server.Connection.{
  ConnectionResult, read_failed, request_failed, finished, Connection, ReadTurn, Progress,
  apply_read_deadline, take_chunk, use_chunk, use_read, read_round, use_parsed, next_request,
}

-- When the request that is arriving, or that begins with the next chunk, must be finished.
abbrev pub due : Connection → List ReadTurn → ℕ
due conn turns = if conn.request_in_progress then conn.request_deadline else elim turns [
  | [] ↦ conn.request_deadline
  | turn ∷ later ↦ turn.after + conn.deadlines.request * 1000000
]

pub due-in_progress :
    (conn : Connection) (turns : List ReadTurn)
    → conn.request_in_progress ≡ true
    → due conn turns ≡ conn.request_deadline
due-in_progress conn turns e = rw e refl

pub take_chunk-due :
    (conn : Connection) (bytes : Bytes) (turn : ReadTurn) (turns : List ReadTurn)
    → let fed = take_chunk conn bytes turn.after in
      (fed.request_in_progress ≡ true) × (fed.request_deadline ≡ due conn (turn ∷ turns))
unfolding take_chunk
take_chunk-due conn bytes turn turns = elim (Bool-cases conn.request_in_progress) [
  | inl e ↦ (ground arith, ground arith)
  | inr e ↦ (ground arith, ground arith)
]

abbrev Keeps : ℕ → Progress → Type 0
Keeps deadline p =
    (t : Connection × ConnectionResult × List ReadTurn)
    → p ≡ some t
    → t.0.request_in_progress ≡ true
    → t.0.request_deadline ≡ deadline

some-Keeps :
    (conn : Connection) (result : ConnectionResult) (turns later : List ReadTurn)
    → Keeps (due conn turns) (some (conn, result, later))
some-Keeps conn result turns later t e b =
    let same : conn ≡ t.0 = cc in
    subst (λ (c : Connection). c.request_in_progress ≡ true → c.request_deadline ≡ due conn turns)
      same (λ f. sym (due-in_progress conn turns f)) b

use_parsed-Keeps :
    (go : Connection → Progress) (conn : Connection) (turns : List ReadTurn)
    (o : Option (RequestReader × RequestResult))
    → ((q : RequestReader) → Keeps (due conn turns) (go (record conn { reader = q })))
    → Keeps (due conn turns) (use_parsed go conn turns o)
use_parsed-Keeps go conn turns none h = λ t e b. absurd (cc)
use_parsed-Keeps go conn turns (some (q, nothing_yet)) h = h q
use_parsed-Keeps go conn turns (some (q, failure error c version)) h =
    some-Keeps (record conn { reader = q }) (request_failed error c version) turns turns
use_parsed-Keeps go conn turns (some (q, complete request)) h = λ t e b.
    let same : record conn { reader = q; request_in_progress = false } ≡ t.0 = cc in absurd (cc)

module _ (again : Connection → Progress) (turns : List ReadTurn)
    (h : (fed : Connection) → Keeps (due fed turns) (again fed)) where
  use_chunk-Keeps :
      (conn : Connection) (turn : ReadTurn) (bytes : Option Bytes)
      → Keeps (due conn (turn ∷ turns)) (use_chunk again conn turn.after turns bytes)
  use_chunk-Keeps conn turn none = some-Keeps conn finished (turn ∷ turns) turns
  use_chunk-Keeps conn turn (some bytes) =
      let fed = take_chunk conn bytes turn.after in
      let (starts, deadline) = take_chunk-due conn bytes turn turns in
      subst (λ d. Keeps d (again fed)) (due-in_progress fed turns starts ∙ deadline) (h fed)

  use_read-Keeps :
      (conn : Connection) (turn : ReadTurn) (o : Option (ReadResult × List Recv))
      → Keeps (due conn (turn ∷ turns)) (use_read again conn turn.after turns o)
  use_read-Keeps conn turn none = λ t e b. absurd (cc)
  use_read-Keeps conn turn (some (chunk, left)) = elim (Bool-cases (chunk.os_error == 0)) [
    | inr failed ↦ rw failed (some-Keeps conn (read_failed chunk.os_error) (turn ∷ turns) turns)
    | inl fine ↦ rw fine (use_chunk-Keeps conn turn chunk.bytes)
  ]

  read_round-Keeps :
      (conn : Connection) (turn : ReadTurn)
      → Keeps (due conn (turn ∷ turns)) (read_round again conn turn turns)
  unfolding read_round
  read_round-Keeps conn turn =
      let deadline_error = (apply_read_deadline conn turn.now turn.refused).1 in
      elim (Bool-cases (deadline_error == 0)) [
        | inr refused ↦
            rw (refused, read_round)
              (some-Keeps conn (read_failed deadline_error) (turn ∷ turns) turns)
        | inl bounded ↦ rw (bounded, read_round) (use_read-Keeps conn turn (read turn.recvs))
      ]

all-Keeps :
    (turns : List ReadTurn) (conn : Connection) → Keeps (due conn turns) (next_request turns conn)
unfolding next_request
all-Keeps [] conn =
    use_parsed-Keeps (λ waiting. none) conn [] (RequestReader.next_request conn.reader)
      (λ q t e b. absurd (cc))
all-Keeps (turn ∷ turns) conn =
    use_parsed-Keeps (λ waiting. read_round (next_request turns) waiting turn turns) conn
      (turn ∷ turns) (RequestReader.next_request conn.reader)
      (λ q.
        read_round-Keeps (next_request turns) turns (all-Keeps turns) (record conn { reader = q })
          turn)

-- If `next_request` returns with a request in progress, then its deadline is the one that stood
-- before if a request was in progress then, and otherwise the time of the first chunk plus
-- `deadlines.request`.
pub next_request-due :
    (turns later : List ReadTurn) (conn after : Connection) (result : ConnectionResult)
    → next_request turns conn ≡ some (after, result, later)
    → after.request_in_progress ≡ true
    → after.request_deadline ≡ due conn turns
next_request-due turns later conn after result = all-Keeps turns conn (after, result, later)
