-- ===== src/Server/Serve/Tests.antt =====
-- Serving a connection, src/server/serve.cpp, at concrete requests.
use carafe.Base.{List, length, true, false, some, [], ◌∷◌, ◌≡◌, refl, map, Bytes, codes, equal}
use carafe.Http.Ascii.{ascii_lower, ascii_equals_lowered}
use carafe.Http.FieldList.{list_elements}
use carafe.Http.Framing
use carafe.Http.Headers
use carafe.Http.Request.{Request, empty_request, get, head, http11}
use carafe.Http.Response.{
  status_response, status_message, text_response, serialize, to_string, status_line,
}
use carafe.Server.Pipeline.{Handler, Pipeline, add}
use carafe.Net.Errno.{eagain}
use carafe.Server.Connection.{request_failed}
use carafe.Server.Serve.{
  after_a_pause, accept_retry_for, Turn, answer, status_for, has_connection_option, serve_turn,
  serve_connection, turns_of, timed_out,
}
use carafe.Server.Serve.Order.{arrived, reply, answered}
use carafe.Server.Serve.Stream.{requests, serve_connection-requests}
use carafe.Server.Config.{Deadlines}
use carafe.Server.Connection.{ReadTurn, new_connection}
use carafe.Server.Connection.Whole.{chunks}
use carafe.Http.ReaderState.{new_reader}
use carafe.Http.RequestReader.Tests.{run_reader}
use carafe.Http.Headers.{Headers}
use carafe.Net.Socket.{got}
use carafe.Server.Serve.Closing.{Announced, serve_turn-Announced}

abbrev pub fine : Handler
fine request = some (status_response 200)

abbrev pub served : Pipeline
served = add (record { router = []; middlewares = [] }) get (codes "/a") fine

abbrev pub first : Request
first = record empty_request { target = codes "/a"; version = http11 }

abbrev pub second : Request
second = record first { method = head }

abbrev pub host : Headers
host = record { name = codes "host"; value = codes "h" } ∷ []

abbrev pub found : List Request
found = record first { headers = host } ∷ record second { headers = host } ∷ []

abbrev pub patient : Deadlines
patient = record { idle = 1000; request = 2000 }

-- Two pipelined requests, cut inside the method of the second.
abbrev cut_reads : List ReadTurn
cut_reads =
    record {
      now = 0;
      refused = 0;
      recvs = got (codes "GET /a HTTP/1.1\r\nHost: h\r\n\r\nHEA") ∷ [];
      after = 5;
    }
    ∷ record {
      now = 6;
      refused = 0;
      recvs = got (codes "D /a HTTP/1.1\r\nHost: h\r\n\r\n") ∷ [];
      after = 7;
    }
    ∷ []

cut_reads-found : turns_of (true ∷ true ∷ []) cut_reads (new_connection patient) ≡ map arrived found
unfolding turns_of run_reader
cut_reads-found = refl

serve_connection-requests_example :
    serve_connection served (turns_of (true ∷ true ∷ []) cut_reads (new_connection patient))
    ≡ map (reply served) (answered (requests (length found) new_reader (chunks cut_reads)))
serve_connection-requests_example =
    serve_connection-requests served patient (true ∷ true ∷ []) cut_reads found cut_reads-found

-- A connection option among others, in any case.
closing_option :
    has_connection_option
      (record { name = codes "connection"; value = codes "x, Close" } ∷ [])
      (codes "close")
    ≡ true
unfolding has_connection_option list_elements equal ascii_equals_lowered ascii_lower
closing_option = refl

exhausted_waits : accept_retry_for 24 ≡ after_a_pause
unfolding accept_retry_for
exhausted_waits = refl

abbrev broken : Turn
broken = record {
  result = request_failed Framing.malformed false http11;
  request_in_progress = false;
  written = true;
}

abbrev refusal : Bytes
refusal =
    codes
      "HTTP/1.1 400 Bad Request\r\ncontent-type: text/plain; charset=utf-8\r\nconnection: close\r\ncontent-length: 16\r\n\r\n400 Bad Request\n"

broken_refused : serve_turn served broken ≡ (refusal ∷ [], false)
unfolding serve_turn answer status_for serialize status_response Headers.add ascii_lower equal
    to_string status_message text_response status_line
broken_refused = refl

serve_turn-Announced_example : Announced refusal
serve_turn-Announced_example = serve_turn-Announced served broken refusal refl broken_refused

pub eagain-timed_out : timed_out eagain ≡ true
unfolding timed_out
eagain-timed_out = refl
