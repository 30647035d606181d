-- ===== src/Server/Connection/Stalled.antt =====
-- `next_request` of src/server/connection.cpp on a request that stops arriving.
use carafe.Base.{
  ℕ, ◌+◌, ◌≤◌, some, none, List, [], ◌∷◌, ◌++◌, ◌≡◌, ◌≢◌, sym, ap, subst, ◌∙◌, arith, All, Bytes,
  append_assoc, ◌==◌, false, refl,
}
use carafe.Http.RequestReader.Printed.{Message, message_text, IsSendable}
use carafe.Http.RequestReader.Printed.Seen.{Sees, Sees-waits}
use carafe.Net.Socket.{Recv, read, milliseconds_until}
use carafe.Server.Config.{Deadlines}
use carafe.Server.Connection.{
  read_failed, Connection, ReadTurn, Progress, apply_read_deadline, take_chunk, read_round,
  use_parsed, next_request,
}
use carafe.Server.Connection.Arrival.{
  Delivers, IsOpen, take_chunk-IsOpen, take_chunk-limits, next_request-waits,
}
use carafe.Server.Connection.Whole.{chunks, chunk_bytes, take_chunk-reader}

-- A round whose read fails, begun a millisecond or more before `close`.
pub record Fails (close os_error : ℕ) (turn : ReadTurn) : Type 0 where
  pub left : List Recv
  pub fails : read turn.recvs ≡ some (record { os_error = os_error; bytes = none }, left)
  pub failed : os_error ≢ 0
  pub accepted : turn.refused ≡ 0
  pub in_time : turn.now + 1000000 ≤ close

apply_read_deadline-in_time :
    (conn : Connection) (close os_error : ℕ) (turn : ReadTurn)
    → Fails close os_error turn
    → IsOpen close conn
    → (apply_read_deadline conn turn.now turn.refused).1 ≡ 0
unfolding apply_read_deadline milliseconds_until
apply_read_deadline-in_time conn close os_error turn d o = ground (arith, d.accepted, d.in_time)

read_round-failed :
    (again : Connection → Progress) (conn : Connection) (close os_error : ℕ) (turn : ReadTurn)
    (later : List ReadTurn)
    → Fails close os_error turn
    → IsOpen close conn
    → read_round again conn turn later ≡ some (conn, read_failed os_error, later)
unfolding read_round
read_round-failed again conn close os_error turn later d o =
    let bad : (os_error == 0) ≡ false = ground (arith, d.failed) in
    rw (apply_read_deadline-in_time conn close os_error turn d o, read_round, d.fails, bad) refl

-- The reads bring a part of a request, and then one fails: that is reported.
pub next_request-Stalls :
    (close os_error : ℕ) (turns : List ReadTurn) (last : ReadTurn) (conn : Connection)
    (message : Message) (has rest : Bytes)
    → IsSendable message
    → Sees conn.reader has
    → IsOpen close conn
    → All (Delivers conn.deadlines.request close) turns
    → Fails close os_error last
    → rest ≢ []
    → has ++ (chunks turns ++ rest) ≡ message_text message
    → (after : Connection) × (next_request (turns ++ last ∷ []) conn
        ≡ some (after, read_failed os_error, []))
unfolding next_request
next_request-Stalls close os_error [] last conn message has rest send w o ds f ne cut =
    let (q, e, _) = Sees-waits conn.reader message has rest send ne cut w in
    let waiting = record conn { reader = q } in
    (
      waiting,
      ap (use_parsed (λ c. read_round (next_request []) c last []) conn (last ∷ [])) e
          ∙ read_round-failed (next_request []) waiting close os_error last [] f o,
    )
next_request-Stalls close os_error (turn ∷ turns) last conn message has rest send w o (d, ds) f ne
      cut =
    let behind = chunks (turn ∷ turns) ++ rest in
    let (q, e, next) =
      Sees-waits conn.reader message has behind send (not_nil (chunks (turn ∷ turns)) rest ne) cut
        w in
    let waiting = record conn { reader = q } in
    let fed = take_chunk waiting d.bytes turn.after in
    let limits = take_chunk-limits waiting d.bytes turn.after in
    let (after, later) =
      next_request-Stalls close os_error turns last fed message (has ++ d.bytes) rest send
        (subst (λ r. Sees r (has ++ d.bytes)) (sym (take_chunk-reader waiting d.bytes turn.after))
          (next d.bytes))
        (take_chunk-IsOpen waiting close turn d o)
        (subst (λ (ls : Deadlines). All (Delivers ls.request close) turns) (sym limits) ds) f ne
        (append_assoc has d.bytes (chunks turns ++ rest)
          ∙ ap (λ s. has ++ s) (sym (append_assoc d.bytes (chunks turns) rest))
          ∙ ap (λ b. has ++ ((chunk_bytes b ++ chunks turns) ++ rest)) (sym d.brings)
          ∙ cut) in
    (after, next_request-waits turn (turns ++ last ∷ []) conn close q d o e ∙ later)
  where
    not_nil : (a b : Bytes) → b ≢ [] → a ++ b ≢ []
    not_nil [] b n e = n e
    not_nil (x ∷ a) b n e = absurd (cc)
