-- ===== src/Server/Serve/Wire/Tests.antt =====
-- A client that goes away in the middle of an answer: src/server/serve.cpp down to the calls of `send`.
use carafe.Base.{
  ◌≡◌, refl, arith, some, none, Option, ltb, if◌then◌else◌, List, [], ◌∷◌, map, All, codes,
}
use carafe.Http.Request.{Request, method_name}
use carafe.Http.RequestReader.Tests.{run_reader}
use carafe.Http.Response.{
  status_response, status_message, text_response, serialize, to_string, status_line,
}
use carafe.Net.Socket
use carafe.Net.Socket.{got, took, send_failed, read, WriteRound, Timeval, Send}
use carafe.Net.Socket.Deadline.{nanoseconds}
use carafe.Server.Connection
use carafe.Server.Connection.{ReadTurn, new_connection}
use carafe.Server.Connection.Arrival.{Delivers}
use carafe.Server.Connection.Whole.{chunks}
use carafe.Server.Pipeline.{respond}
use carafe.Server.Serve.{client_wants_close, serve_turn, answer}
use carafe.Server.Serve.Answered.{texts}
use carafe.Server.Serve.Answered.Tests.{first_sent, first-IsSendable}
use carafe.Server.Serve.Order.{reply, answered}
use carafe.Server.Serve.Tests.{served, patient}
use carafe.Server.Serve.Wire.{WriteTurn, Wire, serve_wire}
use carafe.Server.Serve.Wire.Returned.{Expires, WireEnds, serve_wire-WireEnds}
use carafe.Server.Serve.Wire.Carried.{AllHaveErrno, Carries, joined, serve_wire-texts}

abbrev asked : List Request
asked = first_sent.request ∷ []

abbrev turns : List ReadTurn
turns =
    record {
      now = 0;
      refused = 0;
      recvs = got (codes "GET /a HTTP/1.1\r\nhost: h\r\n\r\n") ∷ [];
      after = 5;
    }
    ∷ []

-- The kernel takes eight bytes, and then the write fails with EPIPE.
abbrev outs : List WriteTurn
outs =
    record {
      started = 6;
      rounds =
          record { now = 7; refused = 0; sent = λ timeout. some (took 8) }
          ∷ record { now = 8; refused = 0; sent = λ timeout. some (send_failed 32) }
          ∷ [];
    }
    ∷ []

abbrev wire : Wire
wire = record { taken = codes "HTTP/1.1"; failed = 32 }

wired : serve_wire served outs turns (new_connection patient) ≡ some wire
unfolding serve_wire run_reader serve_turn answer client_wants_close respond serialize
    status_response status_message text_response to_string status_line Socket.write
    Connection.next_request Socket.write_round
wired = refl

turns-Delivers : All (Delivers patient.request 1000006) turns
unfolding read
turns-Delivers = (
  record {
    bytes = _;
    left = [];
    brings = refl;
    accepted = refl;
    in_time = omega arith;
    closes = omega arith;
  },
  tt,
)

turns-texts : chunks turns ≡ texts (first_sent ∷ [])
unfolding read method_name
turns-texts = refl

outs-AllHaveErrno : All AllHaveErrno outs
outs-AllHaveErrno = ((λ timeout. tt, (λ timeout e. cc, tt)), tt)

serve_wire-texts_example : Carries (joined (map (reply served) (answered asked))) wire
serve_wire-texts_example =
    serve_wire-texts served patient 1000006 (first_sent ∷ []) turns outs wire (first-IsSendable, tt)
      turns-Delivers turns-texts refl outs-AllHaveErrno wired

-- A client that reads slowly: without a timeout, `send` would wait for it for ever.
abbrev slowly : Timeval → Option Send
slowly timeout = if ltb 0 (nanoseconds timeout) then some (took 8) else none

-- The second round begins behind the two seconds that the write may take.
abbrev stuck : List WriteTurn
stuck =
    record {
      started = 6;
      rounds =
          record { now = 7; refused = 0; sent = slowly }
          ∷ record { now = 2000000006; refused = 0; sent = slowly }
          ∷ [];
    }
    ∷ []

stuck-Expires : All (Expires patient.request) stuck
stuck-Expires = (
  record {
    early = record { now = 7; refused = 0; sent = slowly } ∷ [];
    last = record { now = 2000000006; refused = 0; sent = slowly };
    rounds_are = refl;
    honours = (λ timeout pos e. ground arith, tt);
    late = omega arith;
  },
  tt,
)

serve_wire-WireEnds_example : WireEnds (serve_wire served stuck turns (new_connection patient))
serve_wire-WireEnds_example =
    serve_wire-WireEnds served stuck turns (new_connection patient) stuck-Expires
