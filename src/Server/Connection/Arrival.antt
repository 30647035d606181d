-- ===== src/Server/Connection/Arrival.antt =====
-- `next_request` of src/server/connection.cpp on requests that arrive whole, in any pieces.
use carafe.Base.{
  ℕ, ◌+◌, ◌*◌, ◌≤◌, false, none, some, List, [], ◌∷◌, ◌++◌, ◌≡◌, ◌⊎◌, refl, sym, ap, subst, ◌∙◌,
  inl, inr, arith, All, Bytes, append-cases, append_assoc, length, length-append,
}
use carafe.Http.ReaderState.{RequestReader, nothing_yet, complete}
use carafe.Http.Request.{Request}
use carafe.Http.RequestReader
use carafe.Http.RequestReader.Printed.{Message, message_text, IsSendable}
use carafe.Http.RequestReader.Printed.Seen.{Sees, Sees-complete, Sees-waits}
use carafe.Net.Socket.{Recv, read, milliseconds_until}
use carafe.Server.Connection.{
  received, Connection, ReadTurn, Progress, apply_read_deadline, take_chunk, read_round, use_parsed,
  next_request,
}
use carafe.Server.Config.{Deadlines}
use carafe.Server.Connection.Whole.{chunks, chunk_bytes, take_chunk-reader}

-- A round that brings bytes, begun a millisecond before `close`, where `close` is no later than a
-- request that begins with these bytes may take.
pub record Delivers (limit close : ℕ) (turn : ReadTurn) : Type 0 where
  pub bytes : Bytes
  pub left : List Recv
  pub brings : read turn.recvs ≡ some (record { os_error = 0; bytes = some bytes }, left)
  pub accepted : turn.refused ≡ 0
  pub in_time : turn.now + 1000000 ≤ close
  pub closes : close ≤ turn.after + limit * 1000000

-- Before `close`, no deadline has passed.
abbrev pub IsOpen : ℕ → Connection → Type 0
IsOpen close conn = (conn.request_in_progress ≡ false) ⊎ (close ≤ conn.request_deadline)

apply_read_deadline-open :
    (conn : Connection) (limit close : ℕ) (turn : ReadTurn)
    → Delivers limit close turn
    → IsOpen close conn
    → (apply_read_deadline conn turn.now turn.refused).1 ≡ 0
unfolding apply_read_deadline milliseconds_until
apply_read_deadline-open conn limit close turn d o = ground (arith, d.accepted, d.in_time)

pub take_chunk-IsOpen :
    (conn : Connection) (close : ℕ) (turn : ReadTurn)
    → (d : Delivers conn.deadlines.request close turn) → IsOpen close conn
    → IsOpen close (take_chunk conn d.bytes turn.after)
unfolding take_chunk
take_chunk-IsOpen conn close turn d o = ground (arith, d.closes)

pub take_chunk-limits :
    (conn : Connection) (bytes : Bytes) (now : ℕ)
    → (take_chunk conn bytes now).deadlines ≡ conn.deadlines
unfolding take_chunk
take_chunk-limits conn bytes now = ground arith

read_round-brings :
    (again : Connection → Progress) (conn : Connection) (limit close : ℕ) (turn : ReadTurn)
    (later : List ReadTurn)
    → (d : Delivers limit close turn) → IsOpen close conn
    → read_round again conn turn later ≡ again (take_chunk conn d.bytes turn.after)
unfolding read_round
read_round-brings again conn limit close turn later d o =
    rw (apply_read_deadline-open conn limit close turn d o, read_round, d.brings) refl

-- The request is reported, and what is left of the bytes is `rest`.
pub record Arrives (close : ℕ) (turns : List ReadTurn) (conn : Connection) (request : Request)
    (rest : Bytes) : Type 0 where
  pub after : Connection
  pub later : List ReadTurn
  pub reported : next_request turns conn ≡ some (after, received request, later)
  pub has : Bytes
  pub sees : Sees after.reader has
  pub left : has ++ chunks later ≡ rest
  pub delivers : All (Delivers conn.deadlines.request close) later
  pub idle : after.request_in_progress ≡ false
  pub limits : after.deadlines ≡ conn.deadlines

next_request-at_once :
    (turns : List ReadTurn) (conn : Connection) (q : RequestReader) (request : Request)
    → RequestReader.next_request conn.reader ≡ some (q, complete request)
    → next_request turns conn
      ≡ some (record conn { reader = q; request_in_progress = false }, received request, turns)
unfolding next_request
next_request-at_once [] conn q request e = ap (use_parsed (λ x. none) conn []) e
next_request-at_once (turn ∷ turns) conn q request e =
    ap (use_parsed (λ x. read_round (next_request turns) x turn turns) conn (turn ∷ turns)) e

pub next_request-waits :
    (turn : ReadTurn) (turns : List ReadTurn) (conn : Connection) (close : ℕ) (q : RequestReader)
    → (d : Delivers conn.deadlines.request close turn) → IsOpen close conn
    → RequestReader.next_request conn.reader ≡ some (q, nothing_yet)
    → next_request (turn ∷ turns) conn
      ≡ next_request turns (take_chunk (record conn { reader = q }) d.bytes turn.after)
unfolding next_request
next_request-waits turn turns conn close q d o e =
    ap (use_parsed (λ x. read_round (next_request turns) x turn turns) conn (turn ∷ turns)) e
    ∙ read_round-brings (next_request turns) (record conn { reader = q }) conn.deadlines.request
        close turn turns d o

whole-Arrives :
    (close : ℕ) (turns : List ReadTurn) (conn : Connection) (message : Message) (has rest : Bytes)
    → IsSendable message
    → Sees conn.reader (message_text message ++ has)
    → All (Delivers conn.deadlines.request close) turns
    → has ++ chunks turns ≡ rest
    → Arrives close turns conn message.request rest
whole-Arrives close turns conn message has rest send w ds e =
    let (q, f, s) = Sees-complete conn.reader message has send w in
    record {
      after = record conn { reader = q; request_in_progress = false };
      later = turns;
      reported = next_request-at_once turns conn q message.request f;
      has = has;
      sees = s;
      left = e;
      delivers = ds;
      idle = refl;
      limits = refl;
    }

part-Arrives :
    (close : ℕ) (turn : ReadTurn) (turns : List ReadTurn) (conn : Connection) (request : Request)
    (q : RequestReader) (rest : Bytes)
    → (d : Delivers conn.deadlines.request close turn) → IsOpen close conn
    → RequestReader.next_request conn.reader ≡ some (q, nothing_yet)
    → Arrives close turns (take_chunk (record conn { reader = q }) d.bytes turn.after) request rest
    → Arrives close (turn ∷ turns) conn request rest
part-Arrives close turn turns conn request q rest d o e a =
    let same = take_chunk-limits (record conn { reader = q }) d.bytes turn.after in
    record {
      after = a.after;
      later = a.later;
      reported = next_request-waits turn turns conn close q d o e ∙ a.reported;
      has = a.has;
      sees = a.sees;
      left = a.left;
      delivers =
          subst (λ (ls : Deadlines). All (Delivers ls.request close) a.later) same a.delivers;
      idle = a.idle;
      limits = a.limits ∙ same;
    }

-- All that was read since the last request, and all that will be, is a request and what follows it.
pub next_request-Arrives :
    (close : ℕ) (turns : List ReadTurn) (conn : Connection) (message : Message) (has rest : Bytes)
    → IsSendable message
    → Sees conn.reader has
    → IsOpen close conn
    → All (Delivers conn.deadlines.request close) turns
    → has ++ chunks turns ≡ message_text message ++ rest
    → Arrives close turns conn message.request rest
next_request-Arrives close [] conn message has rest send w o ds cut =
    elim (append-cases has [] (message_text message) rest cut) [
      | inl (c, d, e) ↦ absurd (
          omega (
            arith,
            ap length e,
            ap length cut,
            length-append has (c ∷ d),
            length-append has [],
            length-append (message_text message) rest,
          ))
      | inr (d, e, f) ↦
          whole-Arrives close [] conn message d rest send (subst (Sees conn.reader) e w) ds (sym f)
    ]
next_request-Arrives close (turn ∷ turns) conn message has rest send w o (d, ds) cut =
    elim (append-cases has (chunks (turn ∷ turns)) (message_text message) rest cut) [
      | inr (more, e, f) ↦
          whole-Arrives close (turn ∷ turns) conn message more rest send
            (subst (Sees conn.reader) e w) (d, ds) (sym f)
      | inl (c, cs, e) ↦
          let (q, f, next) = Sees-waits conn.reader message has (c ∷ cs) send (λ z. cc) (sym e) w in
          let waiting = record conn { reader = q } in
          let fed = take_chunk waiting d.bytes turn.after in
          let limits = take_chunk-limits waiting d.bytes turn.after in
          part-Arrives close turn turns conn message.request q rest d o f (
            next_request-Arrives close turns fed message (has ++ d.bytes) rest send
              (subst (λ r. Sees r (has ++ d.bytes))
                (sym (take_chunk-reader waiting d.bytes turn.after)) (next d.bytes))
              (take_chunk-IsOpen waiting close turn d o)
              (subst (λ (ls : Deadlines). All (Delivers ls.request close) turns) (sym limits) ds)
              (append_assoc has d.bytes (chunks turns)
                ∙ ap (λ b. has ++ (chunk_bytes b ++ chunks turns)) (sym d.brings)
                ∙ cut))
    ]
