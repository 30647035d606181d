-- ===== src/Server/Serve/Order.antt =====
-- Persistent connections of src/server/serve.cpp: requests are answered in the order of arrival.
use carafe.Base.{
  true, false, not, List, [], ◌∷◌, map, ◌≡◌, refl, Bytes, if◌then◌else◌, Bool-cases, inl, inr,
}
use carafe.Http.Request.{Request}
use carafe.Http.Response.{serialize}
use carafe.Server.Pipeline.{Pipeline, respond, bind}
use carafe.Server.Connection.{received}
use carafe.Server.Serve.{
  Turn, announce, is_head, client_wants_close, answer, serve_turn, serve_connection,
}

-- A request that arrives, and whose answer can be written.
abbrev pub arrived : Request → Turn
arrived request = record { result = received request; request_in_progress = false; written = true }

-- What the pipeline answers, on the wire; the last answer announces the close.
unfoldable pub reply : Pipeline → Request → Bytes
reply pipeline request =
    let response = (respond pipeline request).0 in
    serialize (if client_wants_close request then announce response else response)
      (not (is_head request.method))

-- The requests that get an answer: none behind the first that asks to close.
unfoldable pub answered : List Request → List Request
answered [] = []
answered (request ∷ requests) =
    let rest = answered requests in
    if client_wants_close request then request ∷ [] else request ∷ rest

-- Binding captures does not touch what the decision reads.
client_wants_close-bind :
    (pipeline : Pipeline) (request : Request)
    → client_wants_close (bind pipeline request) ≡ client_wants_close request
unfolding client_wants_close bind
client_wants_close-bind pipeline request = refl

serve_turn-arrived :
    (pipeline : Pipeline) (request : Request)
    → serve_turn pipeline (arrived request)
      ≡ (reply pipeline request ∷ [], not (client_wants_close request))
unfolding serve_turn respond reply answer
serve_turn-arrived pipeline request = rw (client_wants_close-bind pipeline request) refl

-- If requests arrive one after the other, and every write succeeds, then what is written is, in the
-- order of arrival, for each request up to the first that asks to close the serialized response of
-- the pipeline, with "connection: close" where the request asks to close, and without its body
-- where the method is HEAD.
pub serve_connection-arrived :
    (pipeline : Pipeline) (requests : List Request)
    → serve_connection pipeline (map arrived requests) ≡ map (reply pipeline) (answered requests)
unfolding serve_connection answered
serve_connection-arrived pipeline [] = refl
serve_connection-arrived pipeline (request ∷ requests) =
    let turn = serve_turn-arrived pipeline request in
    let later = serve_connection-arrived pipeline requests in
    elim (Bool-cases (client_wants_close request)) [
      | inl closes ↦ rw (turn, closes) refl
      | inr stays ↦ rw (turn, stays, later) refl
    ]
