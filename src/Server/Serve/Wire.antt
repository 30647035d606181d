-- ===== src/Server/Serve/Wire.antt =====
-- `serve_connection` of src/server/serve.cpp down to the socket: each answer goes through
-- `Connection::write`, and what the kernel took of it is what the client can read.
mod Carried
mod Returned
mod Tests
use carafe.Base.{
  ℕ, true, ◌&&◌, Bool, false, Option, none, some, List, [], ◌∷◌, ◌++◌, ◌==◌, if◌then◌else◌, Bytes,
}
use carafe.Net.Socket.{WriteRound, Written}
use carafe.Server.Connection.{Connection, ReadTurn, next_request, write}
use carafe.Server.Pipeline.{Pipeline}
use carafe.Server.Serve.{serve_turn}

-- What one `write` meets: the clock when it begins, and its rounds.
pub record WriteTurn : Type 0 where
  pub started : ℕ
  pub rounds : List WriteRound

-- What the client got, and the error of the write that ended the connection, or 0.
pub record Wire : Type 0 where
  pub taken : Bytes
  pub failed : ℕ

abbrev pub silent : Wire
silent = record { taken = []; failed = 0 }

abbrev pub behind : Bytes → Option Wire → Option Wire
behind taken none = none
behind taken (some wire) = some (record wire { taken = taken ++ wire.taken })

-- The end of `answer`; a write that waits gives nothing.
abbrev pub use_written : Bool → Option Wire → Option Written → Option Wire
use_written goes_on later none = none
use_written goes_on later (some w) =
    if w.os_error == 0 && goes_on
    then behind w.taken later
    else some (record { taken = w.taken; failed = w.os_error })

-- What a round has to say is written; a round with nothing to say ends the connection.
abbrev pub send : Connection → WriteTurn → Option Wire → List Bytes × Bool → Option Wire
send conn out later ([], true) = later
send conn out later ([], false) = some silent
send conn out later (bytes ∷ _, goes_on) =
    use_written goes_on later (write conn out.started out.rounds bytes)

-- The loop, with a write for each round. Where the rounds end, or a read waits, nothing more is
-- written.
unfoldable pub serve_wire : Pipeline → List WriteTurn → List ReadTurn → Connection → Option Wire
serve_wire pipeline [] reads conn = some silent
serve_wire pipeline (out ∷ outs) reads conn = elim (next_request reads conn) [
  | none ↦ some silent
  | some (after, result, later) ↦
      let rest = serve_wire pipeline outs later after in
      send after out rest (
        serve_turn pipeline (record {
          result = result;
          request_in_progress = after.request_in_progress;
          written = true;
        }))
]
