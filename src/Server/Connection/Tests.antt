-- ===== src/Server/Connection/Tests.antt =====
-- Tests of src/server/connection.cpp, and runs of its theorems.
use carafe.Base.{List, Option, Bool, none, ℕ, true, some, [], ◌∷◌, ◌≡◌, refl, Bytes, codes}
use carafe.Http.LineReader.History.{empty_reader-IsValid}
use carafe.Http.Framing.{body_too_large}
use carafe.Http.ReaderState.{discarding, RequestReader, new_reader, complete}
use carafe.Http.Request.{http11, Request, empty_request, http10}
use carafe.Http.RequestReader.Tests.{run_reader}
use carafe.Net.Errno.{eintr, eagain}
use carafe.Net.Socket.{got, recv_failed}
use carafe.Server.Connection.{
  ConnectionResult, request_failed, read_failed, received, Connection, new_connection, ReadTurn,
  next_request,
}
use carafe.Server.Connection.Whole.{Parses, next_request-Parses}

abbrev fresh : Connection
fresh = new_connection (record { idle = 1000; request = 2000 })

abbrev begins : ReadTurn
begins = record { now = 0; refused = 0; recvs = got (codes "GE") ∷ []; after = 5 }

abbrev ends : ReadTurn
ends = record {
  now = 7;
  refused = 0;
  recvs = recv_failed eintr ∷ got (codes "T / HTTP/1.0\r\n\r\n") ∷ [];
  after = 8;
}

abbrev stalls : ReadTurn
stalls = record {
  now = 7;
  refused = 0;
  recvs = recv_failed eintr ∷ recv_failed eagain ∷ [];
  after = 9;
}

abbrev reader_at : Bytes → ℕ → ℕ → RequestReader
reader_at bytes begin scanned = record new_reader {
  line_reader = record { buffer = bytes; begin = begin; scanned = scanned };
}

-- The client fell silent inside its request line.
abbrev stalled : Connection
stalled = record fresh {
  reader = reader_at (codes "GE") 0 1;
  request_in_progress = true;
  request_deadline = 2000000005;
}

begins-stalls : next_request (begins ∷ stalls ∷ []) fresh ≡ some (stalled, read_failed eagain, [])
unfolding next_request run_reader
begins-stalls = refl

abbrev asked_for : Request
asked_for = record empty_request { target = codes "/"; version = http10 }

abbrev answered : Connection
answered = record fresh {
  reader = reader_at (codes "GET / HTTP/1.0\r\n\r\n") 18 18;
  request_deadline = 2000000005;
}

begins-ends : next_request (begins ∷ ends ∷ []) fresh ≡ some (answered, received asked_for, [])
unfolding next_request run_reader
begins-ends = refl

next_request-Parses_example :
    Parses new_reader (begins ∷ ends ∷ []) answered.reader [] (complete asked_for)
next_request-Parses_example =
    next_request-Parses (begins ∷ ends ∷ []) [] fresh answered (received asked_for)
      (complete asked_for) empty_reader-IsValid begins-ends refl

-- Behind the deadline: no read is made.
abbrev too_late : ReadTurn
too_late = record { now = 2000000000; refused = 0; recvs = []; after = 0 }

-- A second read, which brings no line yet.
abbrev drips : ReadTurn
drips = record { now = 7; refused = 0; recvs = got (codes "T") ∷ []; after = 1999000000 }

-- A request and the first bytes of a second: the second is not in progress once the first is handed
-- over, although its bytes are there.
abbrev pipelined : ReadTurn
pipelined = record begins { recvs = got (codes "GET / HTTP/1.0\r\n\r\nGE") ∷ [] }

abbrev left_over : Connection
left_over = record fresh {
  reader = reader_at (codes "GET / HTTP/1.0\r\n\r\nGE") 18 18;
  request_deadline = 2000000005;
}

pipelined_received :
    next_request (pipelined ∷ stalls ∷ []) fresh ≡ some (left_over, received asked_for, stalls ∷ [])
unfolding next_request run_reader
pipelined_received = refl

abbrev left_waiting : Connection
left_waiting = record left_over { reader = reader_at (codes "GET / HTTP/1.0\r\n\r\nGE") 18 19 }

pipelined_stalls :
    next_request (stalls ∷ []) left_over ≡ some (left_waiting, read_failed eagain, [])
unfolding next_request run_reader
pipelined_stalls = refl

-- A refusal after which the stream continues leaves the request in progress.
abbrev posts : ReadTurn
posts = record begins {
  recvs = got (codes "POST / HTTP/1.1\r\nHost: h\r\nContent-Length: 2000000\r\n\r\n") ∷ [];
}

abbrev outcome :
    Option (Connection × ConnectionResult × List ReadTurn) → Option (ConnectionResult × Bool)
outcome none = none
outcome (some (conn, result, later)) = some (result, conn.request_in_progress)

posts_refused :
    outcome (next_request (posts ∷ []) fresh)
    ≡ some (request_failed body_too_large true http11, true)
unfolding next_request run_reader
posts_refused = refl

-- Three bytes of the refused body are left to drop; with nothing of a next request there, the
-- connection times out as one whose request is in progress.
abbrev draining : Connection
draining = record stalled { reader = record new_reader { phase = discarding; body_bytes = 3 } }

abbrev last_bytes : ReadTurn
last_bytes = record begins { recvs = got (codes "xyz") ∷ [] }

drained_stalls :
    outcome (next_request (last_bytes ∷ stalls ∷ []) draining) ≡ some (read_failed eagain, true)
unfolding next_request run_reader
drained_stalls = refl
