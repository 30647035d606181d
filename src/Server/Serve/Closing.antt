-- ===== src/Server/Serve/Closing.antt =====
-- Closing a connection in src/server/serve.cpp: a close is announced before it is performed.
use carafe.Base.{
  ◌≤◌, Bool, true, false, not, ◌&&◌, ◌||◌, List, [], ◌∷◌, ◌≡◌, ◌≢◌, refl, sym, ◌∙◌, arith, Bytes,
  if◌then◌else◌,
}
use carafe.Http.Framing
use carafe.Http.Framing.{RequestError}
use carafe.Http.Request.{is_http10}
use carafe.Http.Response.{Response, status_response, status_message, serialize}
use carafe.Server.Pipeline.{Pipeline, respond}
use carafe.Server.Connection.{ConnectionResult, read_failed, request_failed, finished, received}
use carafe.Server.Serve.{
  Turn, announce, answer, one, is_head, client_wants_close, timed_out, status_for, serve_turn,
}

abbrev pub Announced : Bytes → Type 0
Announced bytes =
    (response : Response) × (with_body : Bool) × (bytes ≡ serialize (announce response) with_body)

answer-Announced :
    (written closing with_body : Bool) (response : Response)
    → written ≡ true
    → (answer written response closing with_body).1 ≡ false
    → Announced (answer written response closing with_body).0
unfolding answer
answer-Announced written true with_body response w e = (response, with_body, refl)
answer-Announced written false with_body response w e = absurd (ground arith)

one_pair :
    (a : Bytes × Bool) (bytes : Bytes) → one a ≡ (bytes ∷ [], false) → (a.1 ≡ false) × (a.0 ≡ bytes)
one_pair a bytes e = ground arith

one-Announced :
    (written closing with_body : Bool) (response : Response) (bytes : Bytes)
    → written ≡ true
    → one (answer written response closing with_body) ≡ (bytes ∷ [], false)
    → Announced bytes
one-Announced written closing with_body response bytes w e =
    let (last, same) = one_pair (answer written response closing with_body) bytes e in
    let (r, b, f) = answer-Announced written closing with_body response w last in
    (r, b, sym same ∙ f)

abbrev no_answer : List Bytes × Bool
no_answer = ([], false)

timed_out-Announced :
    (written answers : Bool) (bytes : Bytes)
    → (if answers
        then ((answer written (status_response 408) true true).0 ∷ [], false)
        else no_answer)
      ≡ (bytes ∷ [], false)
    → Announced bytes
unfolding answer
timed_out-Announced written true bytes e =
    let same : serialize (announce (status_response 408)) true ≡ bytes = ground arith in
    (status_response 408, true, sym same)
timed_out-Announced written false bytes e = absurd (ground arith)

result-Announced :
    (pipeline : Pipeline) (result : ConnectionResult) (in_progress written : Bool) (bytes : Bytes)
    → written ≡ true
    → serve_turn pipeline
        (record { result = result; request_in_progress = in_progress; written = written })
      ≡ (bytes ∷ [], false)
    → Announced bytes
unfolding serve_turn
result-Announced pipeline (read_failed os_error) in_progress written bytes w e =
    timed_out-Announced written (timed_out os_error && in_progress) bytes e
result-Announced pipeline (request_failed error continues version) in_progress written bytes w e =
    one-Announced written (not continues || is_http10 version) true
      (status_response (status_for error)) bytes w e
result-Announced pipeline finished in_progress written bytes w e = absurd (ground arith)
result-Announced pipeline (received request) in_progress written bytes w e =
    let (response, bound) = respond pipeline request in
    one-Announced written (client_wants_close bound) (not (is_head bound.method)) response bytes w e

-- If a round of `serve_connection` writes an answer, the write succeeds, and the loop ends there,
-- then the answer carries a field "connection: close".
pub serve_turn-Announced :
    (pipeline : Pipeline) (turn : Turn) (bytes : Bytes)
    → turn.written ≡ true
    → serve_turn pipeline turn ≡ (bytes ∷ [], false)
    → Announced bytes
serve_turn-Announced pipeline turn bytes w e =
    result-Announced pipeline turn.result turn.request_in_progress turn.written bytes w e

-- The status for any request error is at least 400, and has a phrase.
pub status_for-message :
    (error : RequestError) → (400 ≤ status_for error) × (status_message (status_for error) ≢ [])
unfolding status_for status_message
status_for-message Framing.malformed = (omega arith, λ e. absurd (cc))
status_for-message Framing.unknown_method = (omega arith, λ e. absurd (cc))
status_for-message Framing.unsupported_version = (omega arith, λ e. absurd (cc))
status_for-message Framing.request_line_too_long = (omega arith, λ e. absurd (cc))
status_for-message Framing.header_too_long = (omega arith, λ e. absurd (cc))
status_for-message Framing.too_many_headers = (omega arith, λ e. absurd (cc))
status_for-message Framing.head_too_large = (omega arith, λ e. absurd (cc))
status_for-message Framing.body_too_large = (omega arith, λ e. absurd (cc))
status_for-message Framing.unsupported_transfer_encoding = (omega arith, λ e. absurd (cc))
