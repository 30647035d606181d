-- ===== src/Server/Serve.antt =====
-- src/server/serve.cpp, but for the accept loop, over what a connection reports: the results of
-- `Connection::next_request` in order, each with what `request_in_progress` says then and whether the
-- write of the answer succeeds.
mod Order
mod Closing
mod Timeout
mod Stream
mod Answered
mod Wire
mod Tests
use carafe.Base.{
  ℕ, Bool, true, false, not, ◌&&◌, ◌||◌, Option, none, some, List, [], ◌∷◌, ◌++◌, if◌then◌else◌,
  Bytes, codes, equal, ◌==◌,
}
use carafe.Http.Ascii.{ascii_equals_lowered}
use carafe.Http.FieldList.{list_elements}
use carafe.Http.Framing
use carafe.Http.Framing.{RequestError}
use carafe.Http.Headers
use carafe.Http.Headers.{Headers}
use carafe.Http.Request.{Method, head, Version, http10, http11, is_http10, Request}
use carafe.Http.Response.{Response, status_response, serialize}
use carafe.Net.Errno.{
  emfile, enfile, enomem, enobufs, econnaborted, eperm, eproto, etimedout, enetdown, enetunreach,
  ehostdown, ehostunreach, eagain, ewouldblock,
}
use carafe.Server.Connection.{
  ConnectionResult, read_failed, request_failed, finished, received, Connection, ReadTurn,
  next_request,
}
use carafe.Server.Pipeline.{Pipeline, respond}

pub data AcceptRetry : Type 0 where
  never immediately after_a_pause : AcceptRetry

abbrev pub is_one_of : ℕ → List ℕ → Bool
is_one_of n [] = false
is_one_of n (m ∷ numbers) = n == m || is_one_of n numbers

abbrev pub exhausted : List ℕ
exhausted = emfile ∷ enfile ∷ enomem ∷ enobufs ∷ []

abbrev pub one_client : List ℕ
one_client =
    econnaborted ∷ eperm ∷ eproto ∷ etimedout ∷ enetdown ∷ enetunreach ∷ ehostdown ∷ ehostunreach
    ∷ []

unfoldable pub accept_retry_for : ℕ → AcceptRetry
accept_retry_for os_error =
    if is_one_of os_error exhausted
    then after_a_pause
    else if is_one_of os_error one_client
    then immediately
    else never

-- An error: the source's `None` is no error here.
unfoldable pub status_for : RequestError → ℕ
status_for Framing.unknown_method = 501
status_for Framing.unsupported_transfer_encoding = 501
status_for Framing.unsupported_version = 505
status_for Framing.body_too_large = 413
status_for Framing.request_line_too_long = 414
status_for Framing.header_too_long = 431
status_for Framing.too_many_headers = 431
status_for Framing.head_too_large = 431
status_for Framing.malformed = 400

unfoldable pub timed_out : ℕ → Bool
timed_out os_error = is_one_of os_error (eagain ∷ ewouldblock ∷ etimedout ∷ [])

-- The loop over the tokens of one field.
unfoldable pub has_token : List Bytes → Bytes → Bool
has_token [] option = false
has_token (token ∷ tokens) option = ascii_equals_lowered option token || has_token tokens option

unfoldable pub has_connection_option : Headers → Bytes → Bool
unfolding has_token
has_connection_option [] option = false
has_connection_option (header ∷ headers) option =
    let rest = has_connection_option headers option in
    if not (equal header.name (codes "connection"))
    then rest
    else has_token (list_elements header.value) option || rest

unfoldable pub client_wants_close : Request → Bool
unfolding has_connection_option
client_wants_close request =
    if has_connection_option request.headers (codes "close") then true else elim request.version [
      | http10 ↦ not (has_connection_option request.headers (codes "keep-alive"))
      | http11 ↦ false
    ]

pub record Turn : Type 0 where
  pub result : ConnectionResult
  pub request_in_progress : Bool
  pub written : Bool

abbrev pub announce : Response → Response
announce response = record response {
  headers =
      Headers.add response.headers (record { name = codes "connection"; value = codes "close" });
}

-- The bytes given to `write`, and whether the connection outlives the answer.
unfoldable pub answer : Bool → Response → Bool → Bool → Bytes × Bool
answer written response closing with_body =
    (serialize (if closing then announce response else response) with_body, written && not closing)

abbrev pub is_head : Method → Bool
is_head head = true
is_head _ = false

abbrev pub one : Bytes × Bool → List Bytes × Bool
one (bytes, goes_on) = (bytes ∷ [], goes_on)

-- One round of the loop: what is written, and whether there is another round.
unfoldable pub serve_turn : Pipeline → Turn → List Bytes × Bool
unfolding status_for timed_out client_wants_close answer
serve_turn pipeline turn = elim turn.result [
  | read_failed os_error ↦
      if timed_out os_error && turn.request_in_progress
      then ((answer turn.written (status_response 408) true true).0 ∷ [], false)
      else ([], false)
  | request_failed error stream_continues version ↦ one (
      answer turn.written (status_response (status_for error))
        (not stream_continues || is_http10 version) true)
  | finished ↦ ([], false)
  | received request ↦
      let (response, bound) = respond pipeline request in
      one (answer turn.written response (client_wants_close bound) (not (is_head bound.method)))
]

unfoldable pub serve_connection : Pipeline → List Turn → List Bytes
serve_connection pipeline [] = []
serve_connection pipeline (turn ∷ turns) =
    let (written, goes_on) = serve_turn pipeline turn in
    let later = serve_connection pipeline turns in if goes_on then written ++ later else written

-- The rounds of `serve_connection` on a connection, one for each entry that says whether its answer
-- could be written; a write touches no parser state.
unfoldable pub turns_of : List Bool → List ReadTurn → Connection → List Turn
unfolding next_request
turns_of [] reads conn = []
turns_of (written ∷ writes) reads conn = elim (next_request reads conn) [
  | none ↦ []
  | some (after, result, later) ↦
      record { result = result; request_in_progress = after.request_in_progress; written = written }
      ∷ turns_of writes later after
]
