-- ===== src/Server/Connection/Ending.antt =====
-- `next_request` of src/server/connection.cpp returns, however slowly a request arrives.
use carafe.Base.{ℕ, ◌+◌, ◌<◌, true, Option, none, some, List, ◌≡◌, ◌≢◌, ◌⊎◌, ◌≤◌}
use carafe.Http.ReaderState.{RequestReader}
use carafe.Http.RequestReader
use carafe.Net.Socket.{Timeval, read}
use carafe.Net.Socket.Deadline.{nanoseconds}
use carafe.Server.Connection.{ConnectionResult, Connection, ReadTurn, Progress, apply_read_deadline}

-- `read` answers, if only with an error.
abbrev Answers : ReadTurn → Type 0
Answers turn = read turn.recvs ≢ none

-- What the kernel promises for a timeout given to `setsockopt`: if it was accepted and is not zero,
-- `read` answers before it is over. For a timeout of zero it promises nothing.
abbrev pub Honours : Option Timeval × ℕ → ReadTurn → Type 0
Honours (none, os_error) turn = Unit
Honours (some limit, os_error) turn =
    os_error ≡ 0
    → 0 < nanoseconds limit
    → Answers turn × (turn.after ≤ turn.now + nanoseconds limit)

-- The connection while a request arrives that is due at `deadline`.
abbrev pub arriving : Connection → ℕ → Connection
arriving conn deadline = record conn { request_in_progress = true; request_deadline = deadline }

-- A round whose read is over by the deadline, unless it makes none: the deadline is less than a
-- millisecond away, or `setsockopt` refused.
abbrev pub Waits : ℕ → ReadTurn → Type 0
Waits deadline turn =
    (deadline < turn.now + 1000000) ⊎ ((turn.refused ≢ 0) ⊎ (turn.after ≤ deadline))

abbrev pub Returns : Progress → Type 0
Returns p = (t : Connection × ConnectionResult × List ReadTurn) × (p ≡ some t)

-- What the kernel promises for a round in which a request arrives that is due at `deadline`.
abbrev pub InTime : Connection → ℕ → ReadTurn → Type 0
InTime conn deadline turn =
    Honours (apply_read_deadline (arriving conn deadline) turn.now turn.refused) turn
