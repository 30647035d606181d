-- ===== src/Server/Serve/Timeout.antt =====
-- A read that fails in src/server/connection.cpp, and what src/server/serve.cpp answers to it.
mod Tests
use carafe.Base.{
  ℕ, suc, ◌≤◌, Bool, true, false, ◌++◌, ◌∙◌, ◌≢◌, All, lt→ltb, length-append, ◌||◌, Option, none,
  some, List, [], ◌∷◌, ◌≡◌, refl, subst, inl, inr, arith, Bytes, Bool-cases, ◌==◌, if◌then◌else◌,
  ltb, length,
}
use carafe.Http.ReaderState.{RequestReader, RequestResult, nothing_yet, complete, failure}
use carafe.Http.RequestReader
use carafe.Http.RequestReader.Printed.{Message, message_text, IsSendable}
use carafe.Http.RequestReader.Printed.Seen.{Sees}
use carafe.Http.Response.{status_response, serialize}
use carafe.Net.Socket.{Recv, ReadResult, read}
use carafe.Server.Connection.{
  ConnectionResult, read_failed, request_failed, finished, received, Connection, ReadTurn, Progress,
  apply_read_deadline, take_chunk, use_chunk, use_read, read_round, use_parsed, next_request,
}
use carafe.Server.Connection.Arrival.{Delivers}
use carafe.Server.Connection.Stalled.{Fails, next_request-Stalls}
use carafe.Server.Connection.Whole.{chunks}
use carafe.Server.Connection.Deadline.{take_chunk-due}
use carafe.Server.Pipeline.{Pipeline}
use carafe.Server.Serve.{announce, answer, timed_out, serve_turn, serve_connection, turns_of}

-- Whether a request was begun before the last round.
abbrev pub begun : Connection → List ReadTurn → List ReadTurn → Bool
begun conn turns later = conn.request_in_progress || ltb (suc (length later)) (length turns)

abbrev Marks : Connection → List ReadTurn → Connection × ConnectionResult × List ReadTurn → Type 0
Marks conn turns (after, read_failed os_error, later) =
    (suc (length later) ≤ length turns) × (after.request_in_progress ≡ begun conn turns later)
Marks conn turns (after, _, later) = Unit

abbrev AllMark : Connection → List ReadTurn → Progress → Type 0
AllMark conn turns p =
    (t : Connection × ConnectionResult × List ReadTurn) → p ≡ some t → Marks conn turns t

some-Mark :
    (conn : Connection) (turns : List ReadTurn) (t : Connection × ConnectionResult × List ReadTurn)
    → Marks conn turns t
    → AllMark conn turns (some t)
some-Mark conn turns t m u e = let same : t ≡ u = cc in subst (Marks conn turns) same m

use_parsed-Mark :
    (go : Connection → Progress) (conn : Connection) (turns : List ReadTurn)
    (o : Option (RequestReader × RequestResult))
    → ((q : RequestReader) → AllMark conn turns (go (record conn { reader = q })))
    → AllMark conn turns (use_parsed go conn turns o)
use_parsed-Mark go conn turns none h = λ t e. absurd (cc)
use_parsed-Mark go conn turns (some (q, nothing_yet)) h = h q
use_parsed-Mark go conn turns (some (q, failure error c version)) h = some-Mark conn turns _ tt
use_parsed-Mark go conn turns (some (q, complete request)) h = some-Mark conn turns _ tt

last_round :
    (conn : Connection) (turn : ReadTurn) (turns : List ReadTurn) (os_error : ℕ)
    → Marks conn (turn ∷ turns) (conn, read_failed os_error, turns)
last_round conn turn turns os_error = (omega arith, ground arith)

-- A round more, which began the request.
earlier_round :
    (conn fed : Connection) (turn : ReadTurn) (turns : List ReadTurn)
    (t : Connection × ConnectionResult × List ReadTurn)
    → fed.request_in_progress ≡ true
    → Marks fed turns t
    → Marks conn (turn ∷ turns) t
earlier_round conn fed turn turns (after, read_failed os_error, later) e (l, m) =
    (omega (arith, l), ground arith)
earlier_round conn fed turn turns (after, request_failed error c version, later) e m = tt
earlier_round conn fed turn turns (after, finished, later) e m = tt
earlier_round conn fed turn turns (after, received request, later) e m = tt

module _ (again : Connection → Progress) (turns : List ReadTurn)
    (h : (fed : Connection) → AllMark fed turns (again fed)) where
  use_chunk-Mark :
      (conn : Connection) (turn : ReadTurn) (bytes : Option Bytes)
      → AllMark conn (turn ∷ turns) (use_chunk again conn turn.after turns bytes)
  use_chunk-Mark conn turn none = some-Mark conn (turn ∷ turns) _ tt
  use_chunk-Mark conn turn (some bytes) = λ t e.
      let fed = take_chunk conn bytes turn.after in
      earlier_round conn fed turn turns t (take_chunk-due conn bytes turn turns).0 (h fed t e)

  use_read-Mark :
      (conn : Connection) (turn : ReadTurn) (o : Option (ReadResult × List Recv))
      → AllMark conn (turn ∷ turns) (use_read again conn turn.after turns o)
  use_read-Mark conn turn none = λ t e. absurd (cc)
  use_read-Mark conn turn (some (chunk, left)) = elim (Bool-cases (chunk.os_error == 0)) [
    | inr failed ↦
        rw failed (some-Mark conn (turn ∷ turns) _ (last_round conn turn turns chunk.os_error))
    | inl fine ↦ rw fine (use_chunk-Mark conn turn chunk.bytes)
  ]

  read_round-Mark :
      (conn : Connection) (turn : ReadTurn)
      → AllMark conn (turn ∷ turns) (read_round again conn turn turns)
  unfolding read_round
  read_round-Mark conn turn =
      let deadline_error = (apply_read_deadline conn turn.now turn.refused).1 in
      elim (Bool-cases (deadline_error == 0)) [
        | inr refused ↦
            rw (refused, read_round)
              (some-Mark conn (turn ∷ turns) _ (last_round conn turn turns deadline_error))
        | inl bounded ↦ rw (bounded, read_round) (use_read-Mark conn turn (read turn.recvs))
      ]

next_request-Mark :
    (turns : List ReadTurn) (conn : Connection) → AllMark conn turns (next_request turns conn)
unfolding next_request
next_request-Mark [] conn =
    use_parsed-Mark (λ waiting. none) conn [] (RequestReader.next_request conn.reader)
      (λ q t e. absurd (cc))
next_request-Mark (turn ∷ turns) conn =
    use_parsed-Mark (λ waiting. read_round (next_request turns) waiting turn turns) conn
      (turn ∷ turns) (RequestReader.next_request conn.reader)
      (λ q.
        read_round-Mark (next_request turns) turns (next_request-Mark turns)
          (record conn { reader = q }) turn)

-- The answer to a read that timed out.
serve_connection-timed_out :
    (pipeline : Pipeline) (turns later : List ReadTurn) (conn after : Connection) (os_error : ℕ)
    (written : Bool)
    → next_request turns conn ≡ some (after, read_failed os_error, later)
    → timed_out os_error ≡ true
    → serve_connection pipeline (turns_of (written ∷ []) turns conn) ≡ (
        if begun conn turns later then serialize (announce (status_response 408)) true ∷ [] else [])
unfolding serve_connection turns_of serve_turn answer
serve_connection-timed_out pipeline turns later conn after os_error written e t =
    let (l, m) = next_request-Mark turns conn (after, read_failed os_error, later) e in
    rw (e, turns_of)
      (elim (Bool-cases (begun conn turns later)) [
        | inl owed ↦ rw (m, owed, t, serve_connection, serve_turn) refl
        | inr idle ↦ rw (m, idle, t, serve_connection, serve_turn) refl
      ])

-- What is owed for the bytes of a request that does not come to its end.
abbrev pub owed : List ReadTurn → List Bytes
owed [] = []
owed (turn ∷ turns) = serialize (announce (status_response 408)) true ∷ []

begun-owed :
    (conn : Connection) (turns : List ReadTurn) (last : ReadTurn)
    → conn.request_in_progress ≡ false
    → (if begun conn (turns ++ last ∷ []) []
        then serialize (announce (status_response 408)) true ∷ []
        else [])
      ≡ owed turns
begun-owed conn [] last idle = rw idle refl
begun-owed conn (turn ∷ turns) last idle =
    let several : ltb 1 (length (turn ∷ turns ++ last ∷ [])) ≡ true =
      lt→ltb 1 (length (turn ∷ turns ++ last ∷ []))
        (omega (arith, length-append turns (last ∷ []))) in
    rw (idle, several) refl

-- If a connection has no request in progress and no byte behind the last one, its reads bring, in
-- any pieces, the beginning of the text of a request that can be sent, and not its end, and then a
-- read times out, each of these reads begun a millisecond or more before a time that is no later
-- than the request's limit after the end of any that brought bytes, then what is written is the
-- 408 with "connection: close" if any read brought bytes, and otherwise nothing.
pub serve_connection-stalls :
    (pipeline : Pipeline) (close os_error : ℕ) (turns : List ReadTurn) (last : ReadTurn)
    (conn : Connection) (message : Message) (rest : Bytes) (written : Bool)
    → IsSendable message
    → Sees conn.reader []
    → conn.request_in_progress ≡ false
    → All (Delivers conn.deadlines.request close) turns
    → Fails close os_error last
    → timed_out os_error ≡ true
    → rest ≢ []
    → chunks turns ++ rest ≡ message_text message
    → serve_connection pipeline (turns_of (written ∷ []) (turns ++ last ∷ []) conn) ≡ owed turns
serve_connection-stalls pipeline close os_error turns last conn message rest written send w idle ds
      f t ne cut =
    let (after, e) =
      next_request-Stalls close os_error turns last conn message [] rest send w (inl idle) ds f ne
        cut in
    serve_connection-timed_out pipeline (turns ++ last ∷ []) [] conn after os_error written e t
    ∙ begun-owed conn turns last idle
