-- ===== src/Server/Serve/Timeout/Tests.antt =====
-- A client that falls silent inside its request: src/server/serve.cpp at concrete bytes.
use carafe.Base.{List, [], ◌∷◌, ◌++◌, ◌≡◌, refl, arith, true, All, codes}
use carafe.Http.Request.{method_name}
use carafe.Http.RequestReader.Printed.Seen.{new_reader-Sees}
use carafe.Http.Response.{status_response, serialize}
use carafe.Net.Errno.{eintr, eagain}
use carafe.Net.Socket.{got, recv_failed, read}
use carafe.Server.Connection.{ReadTurn, new_connection}
use carafe.Server.Connection.Arrival.{Delivers}
use carafe.Server.Connection.Stalled.{Fails}
use carafe.Server.Serve.{serve_connection, turns_of, announce}
use carafe.Server.Serve.Answered.Tests.{first_sent, first-IsSendable}
use carafe.Server.Serve.Tests.{served, patient, eagain-timed_out}
use carafe.Server.Serve.Timeout.{serve_connection-stalls}

abbrev brings : List ReadTurn
brings =
    record { now = 0; refused = 0; recvs = got (codes "GET /a HT") ∷ []; after = 5 }
    ∷ record { now = 6; refused = 0; recvs = got (codes "TP/1.1\r\n") ∷ []; after = 7 }
    ∷ []

abbrev silent : ReadTurn
silent = record {
  now = 8;
  refused = 0;
  recvs = recv_failed eintr ∷ recv_failed eagain ∷ [];
  after = 1999000000;
}

brings-Delivers : All (Delivers patient.request 1000008) brings
unfolding read
brings-Delivers = (
  record {
    bytes = _;
    left = [];
    brings = refl;
    accepted = refl;
    in_time = omega arith;
    closes = omega arith;
  },
  (
    record {
      bytes = _;
      left = [];
      brings = refl;
      accepted = refl;
      in_time = omega arith;
      closes = omega arith;
    },
    tt,
  ),
)

silent-Fails : Fails 1000008 eagain silent
unfolding read
silent-Fails = record {
  left = [];
  fails = refl;
  failed = λ e. cc;
  accepted = refl;
  in_time = omega arith;
}

serve_connection-stalls_example :
    serve_connection served (turns_of (true ∷ []) (brings ++ silent ∷ []) (new_connection patient))
    ≡ serialize (announce (status_response 408)) true ∷ []
unfolding read method_name
serve_connection-stalls_example =
    serve_connection-stalls served 1000008 eagain brings silent (new_connection patient) first_sent
      (codes "host: h\r\n\r\n") true first-IsSendable new_reader-Sees refl brings-Delivers
      silent-Fails eagain-timed_out (λ e. cc) refl
