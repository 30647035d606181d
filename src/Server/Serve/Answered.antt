-- ===== src/Server/Serve/Answered.antt =====
-- `serve_connection` of src/server/serve.cpp on requests that a client sends one behind the other.
pub mod Tests
use carafe.Base.{
  ℕ, suc, ◌+◌, true, false, List, [], ◌∷◌, ◌++◌, map, ◌≡◌, refl, sym, ap, subst, ◌∙◌, inl, Bool,
  All, Bytes, length, replicate,
}
use carafe.Http.Request.{Request}
use carafe.Http.RequestReader.Printed.{Message, message_text, IsSendable}
use carafe.Http.RequestReader.Printed.Seen.{Sees, new_reader-Sees}
use carafe.Server.Config.{Deadlines}
use carafe.Server.Connection.{Connection, ReadTurn, new_connection}
use carafe.Server.Connection.Arrival.{Delivers, next_request-Arrives}
use carafe.Server.Connection.Whole.{chunks}
use carafe.Server.Pipeline.{Pipeline}
use carafe.Server.Serve.{serve_connection, turns_of}
use carafe.Server.Serve.Order.{arrived, reply, answered, serve_connection-arrived}

-- The requests as a client writes them, one behind the other.
abbrev pub texts : List Message → Bytes
texts [] = []
texts (message ∷ messages) = message_text message ++ texts messages

abbrev pub requests_of : List Message → List Request
requests_of [] = []
requests_of (message ∷ messages) = message.request ∷ requests_of messages

turns_of-texts :
    (close : ℕ) (messages : List Message) (turns : List ReadTurn) (conn : Connection) (has : Bytes)
    → All IsSendable messages
    → Sees conn.reader has
    → conn.request_in_progress ≡ false
    → All (Delivers conn.deadlines.request close) turns
    → has ++ chunks turns ≡ texts messages
    → turns_of (replicate (length messages) true) turns conn ≡ map arrived (requests_of messages)
unfolding turns_of
turns_of-texts close [] turns conn has sends w idle ds e = refl
turns_of-texts close (message ∷ messages) turns conn has (send, sends) w idle ds e =
    let a =
      next_request-Arrives close turns conn message has (texts messages) send w (inl idle) ds e in
    let rest =
      turns_of-texts close messages a.later a.after a.has sends a.sees a.idle
        (subst (λ (ls : Deadlines). All (Delivers ls.request close) a.later) (sym a.limits)
          a.delivers)
        a.left in
    rw (a.reported, turns_of, a.idle, rest) refl

-- If the reads of a new connection bring, in any pieces, the texts of requests that can be sent,
-- as they are or in chunks, and nothing else, each read brings bytes and begins a millisecond or
-- more before a time that is no later than the request's limit after the end of any of them, and
-- every write succeeds, then what is written is, in order, for each request up to the first that
-- asks to close the serialized response of the pipeline, with "connection: close" where the
-- request asks to close, and without its body where the method is HEAD.
pub serve_connection-texts :
    (pipeline : Pipeline) (deadlines : Deadlines) (close : ℕ) (messages : List Message)
    (turns : List ReadTurn)
    → All IsSendable messages
    → All (Delivers deadlines.request close) turns
    → chunks turns ≡ texts messages
    → serve_connection pipeline
        (turns_of (replicate (length messages) true) turns (new_connection deadlines))
      ≡ map (reply pipeline) (answered (requests_of messages))
serve_connection-texts pipeline deadlines close messages turns sends ds e =
    ap (serve_connection pipeline) (
      turns_of-texts close messages turns (new_connection deadlines) [] sends new_reader-Sees refl
        ds e)
    ∙ serve_connection-arrived pipeline (requests_of messages)
