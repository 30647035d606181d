-- ===== src/Server/Connection/Kept.antt =====
-- The deadlines that a connection of src/server/connection.cpp was given are its deadlines for good.
use carafe.Base.{
  ℕ, subst, Option, none, some, List, [], ◌∷◌, ◌≡◌, refl, sym, ap, ◌∙◌, inl, inr, Bytes, Bool-cases,
  ◌==◌,
}
use carafe.Http.ReaderState.{RequestReader, RequestResult, nothing_yet, complete, failure}
use carafe.Http.RequestReader
use carafe.Net.Socket.{Recv, ReadResult, read}
use carafe.Server.Config.{Deadlines}
use carafe.Server.Connection.{
  ConnectionResult, Connection, ReadTurn, Progress, apply_read_deadline, take_chunk, use_chunk,
  use_read, read_round, use_parsed, next_request,
}
use carafe.Server.Connection.Arrival.{take_chunk-limits}

-- Whatever comes of it has the deadlines `limits`.
data Keeps (limits : Deadlines) : Progress → Type 0 where
  nothing : Keeps limits none
  reached :
      {conn : Connection} {result : ConnectionResult} {later : List ReadTurn}
      → conn.deadlines ≡ limits
      → Keeps limits (some (conn, result, later))

use_parsed-Keeps :
    (go : Connection → Progress) (conn : Connection) (turns : List ReadTurn)
    (o : Option (RequestReader × RequestResult))
    → ((c : Connection) → c.deadlines ≡ conn.deadlines → Keeps conn.deadlines (go c))
    → Keeps conn.deadlines (use_parsed go conn turns o)
use_parsed-Keeps go conn turns none h = nothing
use_parsed-Keeps go conn turns (some (q, nothing_yet)) h = h (record conn { reader = q }) refl
use_parsed-Keeps go conn turns (some (q, failure error c version)) h = reached refl
use_parsed-Keeps go conn turns (some (q, complete request)) h = reached refl

module _ (limits : Deadlines) (again : Connection → Progress)
    (h : (c : Connection) → c.deadlines ≡ limits → Keeps limits (again c)) where
  use_chunk-Keeps :
      (conn : Connection) (now : ℕ) (later : List ReadTurn) (o : Option Bytes)
      → conn.deadlines ≡ limits
      → Keeps limits (use_chunk again conn now later o)
  use_chunk-Keeps conn now later none e = reached e
  use_chunk-Keeps conn now later (some bytes) e =
      h (take_chunk conn bytes now) (take_chunk-limits conn bytes now ∙ e)

  use_read-Keeps :
      (conn : Connection) (now : ℕ) (later : List ReadTurn) (o : Option (ReadResult × List Recv))
      → conn.deadlines ≡ limits
      → Keeps limits (use_read again conn now later o)
  use_read-Keeps conn now later none e = nothing
  use_read-Keeps conn now later (some (chunk, left)) e = elim (Bool-cases (chunk.os_error == 0)) [
    | inr failed ↦ rw failed (reached e)
    | inl fine ↦ rw fine (use_chunk-Keeps conn now later chunk.bytes e)
  ]

  read_round-Keeps :
      (conn : Connection) (turn : ReadTurn) (later : List ReadTurn)
      → conn.deadlines ≡ limits
      → Keeps limits (read_round again conn turn later)
  unfolding read_round
  read_round-Keeps conn turn later e =
      elim (Bool-cases ((apply_read_deadline conn turn.now turn.refused).1 == 0)) [
        | inr refused ↦ rw (refused, read_round) (reached e)
        | inl bounded ↦
            rw (bounded, read_round) (use_read-Keeps conn turn.after later (read turn.recvs) e)
      ]

next_request-Keeps :
    (turns : List ReadTurn) (conn : Connection) → Keeps conn.deadlines (next_request turns conn)
unfolding next_request
next_request-Keeps [] conn =
    use_parsed-Keeps (λ waiting. none) conn [] (RequestReader.next_request conn.reader)
      (λ c e. nothing)
next_request-Keeps (turn ∷ turns) conn =
    use_parsed-Keeps (λ waiting. read_round (next_request turns) waiting turn turns) conn
      (turn ∷ turns) (RequestReader.next_request conn.reader)
      (λ c e.
        read_round-Keeps conn.deadlines (next_request turns)
          (λ d f. subst (λ l. Keeps l (next_request turns d)) f (next_request-Keeps turns d)) c turn
          turns e)

Keeps-some :
    (limits : Deadlines) (p : Progress) (conn : Connection) (result : ConnectionResult)
    (later : List ReadTurn)
    → Keeps limits p
    → p ≡ some (conn, result, later)
    → conn.deadlines ≡ limits
Keeps-some limits none conn result later k e = absurd (cc)
Keeps-some limits (some (d, x, l)) conn result later (reached f) e =
    let same : d ≡ conn = cc in ap (λ (c : Connection). c.deadlines) (sym same) ∙ f

pub next_request-deadlines :
    (turns later : List ReadTurn) (conn after : Connection) (result : ConnectionResult)
    → next_request turns conn ≡ some (after, result, later)
    → after.deadlines ≡ conn.deadlines
next_request-deadlines turns later conn after result e =
    Keeps-some conn.deadlines (next_request turns conn) after result later
      (next_request-Keeps turns conn) e
