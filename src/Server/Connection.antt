-- ===== src/Server/Connection.antt =====
-- src/server/connection.hpp and src/server/connection.cpp. The socket is what its calls meet: one entry
-- for each round of the loop of `next_request` that reads. Clocks and deadlines are in nanoseconds.
pub mod Whole
pub mod Arrival
pub mod Kept
pub mod Stalled
pub mod Deadline
mod Ending
mod Tests
use carafe.Base.{
  ℕ, ◌+◌, ◌*◌, Bool, true, false, not, Option, none, some, List, [], ◌∷◌, ◌==◌, if◌then◌else◌,
  Bytes,
}
use carafe.Http.Framing.{RequestError}
use carafe.Http.ReaderState.{
  RequestReader, new_reader, append, RequestResult, nothing_yet, complete, failure,
}
use carafe.Http.RequestReader
use carafe.Http.Request.{Request, Version}
use carafe.Net.Errno.{etimedout}
use carafe.Net.Socket
use carafe.Net.Socket.{
  Recv, ReadResult, Timeval, Written, WriteRound, milliseconds_until, set_receive_timeout, read,
}
use carafe.Server.Config.{Deadlines}

-- `ConnectionResult`, where a failed one is told apart by `operator bool`.
pub data ConnectionResult : Type 0 where
  read_failed : ℕ → ConnectionResult
  request_failed : RequestError → Bool → Version → ConnectionResult
  finished : ConnectionResult
  received : Request → ConnectionResult

pub record Connection : Type 0 where
  pub reader : RequestReader
  pub request_in_progress : Bool
  pub deadlines : Deadlines
  pub request_deadline : ℕ

abbrev pub new_connection : Deadlines → Connection
new_connection deadlines = record {
  reader = new_reader;
  request_in_progress = false;
  deadlines = deadlines;
  request_deadline = 0;
}

-- What one round meets: the clock when the deadline is applied, what `setsockopt` leaves in errno or
-- 0, what `recv` answers, and the clock when the bytes are there.
pub record ReadTurn : Type 0 where
  pub now : ℕ
  pub refused : ℕ
  pub recvs : List Recv
  pub after : ℕ

abbrev pub applied : Timeval × ℕ → Option Timeval × ℕ
applied (limit, os_error) = (some limit, os_error)

-- The deadline given to the socket, and the result.
unfoldable pub apply_read_deadline : Connection → ℕ → ℕ → Option Timeval × ℕ
unfolding milliseconds_until
apply_read_deadline conn now refused =
    if conn.request_in_progress
    then elim (milliseconds_until conn.request_deadline now) [
      | none ↦ (none, etimedout)
      | some left ↦ applied (set_receive_timeout left refused)
    ]
    else applied (set_receive_timeout conn.deadlines.idle refused)

-- The end of a round: the bytes go to the reader, and the first of a request set its deadline.
unfoldable pub take_chunk : Connection → Bytes → ℕ → Connection
unfolding append
take_chunk conn bytes now =
    let fed = record conn { reader = append conn.reader bytes } in
    if not conn.request_in_progress
    then record fed {
      request_in_progress = true;
      request_deadline = now + conn.deadlines.request * 1000000;
    }
    else fed

-- What `next_request` leaves, with the rounds that are left; `none` where it still waits.
abbrev pub Progress : Type 0
Progress = Option (Connection × ConnectionResult × List ReadTurn)

-- The chunk of a round, after the tests on `chunk`.
abbrev pub use_chunk :
    (Connection → Progress) → Connection → ℕ → List ReadTurn → Option Bytes → Progress
use_chunk again conn now later none = some (conn, finished, later)
use_chunk again conn now later (some bytes) = again (take_chunk conn bytes now)

abbrev pub use_read :
    (Connection → Progress)
    → Connection
    → ℕ
    → List ReadTurn
    → Option (ReadResult × List Recv)
    → Progress
use_read again conn now later none = none
use_read again conn now later (some (chunk, _)) =
    if not (chunk.os_error == 0)
    then some (conn, read_failed chunk.os_error, later)
    else use_chunk again conn now later chunk.bytes

-- A round behind the parse that gave nothing yet.
unfoldable pub read_round :
    (Connection → Progress) → Connection → ReadTurn → List ReadTurn → Progress
unfolding apply_read_deadline take_chunk read
read_round again conn turn later =
    let deadline_error = (apply_read_deadline conn turn.now turn.refused).1 in
    if not (deadline_error == 0)
    then some (conn, read_failed deadline_error, later)
    else use_read again conn turn.after later (read turn.recvs)

-- A round from its parse on; `go` is what follows a parse that gave nothing yet.
abbrev pub use_parsed :
    (Connection → Progress)
    → Connection
    → List ReadTurn
    → Option (RequestReader × RequestResult)
    → Progress
use_parsed go conn turns none = none
use_parsed go conn turns (some (reader, nothing_yet)) = go (record conn { reader = reader })
use_parsed go conn turns (some (reader, failure error stream_continues version)) =
    some (record conn { reader = reader }, request_failed error stream_continues version, turns)
use_parsed go conn turns (some (reader, complete request)) =
    some (record conn { reader = reader; request_in_progress = false }, received request, turns)

unfoldable pub next_request : List ReadTurn → Connection → Progress
unfolding read_round
next_request [] conn = use_parsed (λ waiting. none) conn [] (RequestReader.next_request conn.reader)
next_request (turn ∷ later) conn =
    use_parsed (λ waiting. read_round (next_request later) waiting turn later) conn (turn ∷ later)
      (RequestReader.next_request conn.reader)

abbrev pub write : Connection → ℕ → List WriteRound → Bytes → Option Written
write conn started rounds bytes = Socket.write started rounds bytes conn.deadlines.request
