-- ===== src/Server/Pipeline.antt =====
-- src/server/pipeline.hpp, src/server/pipeline.cpp, include/carafe/http/handler.hpp and
-- include/carafe/http/middleware.hpp. Handlers and middleware are the caller's code, so they are
-- parameters: functions of the request, and `none` when they throw.
pub mod Chain
mod Allow
mod Unmatched
mod Tests
use carafe.Base.{
  ℕ, Bool, true, false, not, Option, none, some, List, [], ◌∷◌, ◌++◌, if◌then◌else◌, Bytes, codes,
  length, ◌==◌,
}
use carafe.Http.Headers
use carafe.Http.Request.{Method, method_name, Params, Request}
use carafe.Http.Response.{Response, status_response}
use carafe.Server.Router
use carafe.Server.Router.{Route, Match, allowed_methods}

abbrev pub Handler : Type 0
Handler = Request → Option Response

-- What a call into the chain comes to: the response, or `none` when it throws, and the requests that
-- a handler was called with on the way, in order.
pub record Run : Type 0 where
  pub answer : Option Response
  pub handled : List Request

-- An answer for which no handler is called.
abbrev pub without_handler : Response → Run
without_handler response = record { answer = some response; handled = [] }

-- The rest of the chain: `Next`, which holds a place in the chain, as the function it is called as.
abbrev pub Next : Type 0
Next = Request → Run

abbrev pub Middleware : Type 0
Middleware = Request → Next → Run

pub record Pipeline : Type 0 where
  pub router : List (Route Handler)
  pub middlewares : List Middleware

pub record Exchange : Type 0 where
  pub router : List (Route Handler)
  pub chain : List Middleware
  pub match : Match Handler
  pub original : Request

-- `value` before the loop over the methods that are left.
unfoldable pub allow_from : Bytes → List Method → Bytes
allow_from value [] = value
allow_from value (method ∷ methods) =
    allow_from ((if length value == 0 then value else value ++ codes ", ") ++ method_name method)
      methods

unfoldable pub allow_value : List Method → Bytes
unfolding allow_from
allow_value methods = allow_from [] methods

abbrev pub add_allow : Response → Bytes → Response
add_allow response methods = record response {
  headers = Headers.add response.headers (record { name = codes "allow"; value = methods });
}

unfoldable pub unmatched_response : List (Route Handler) → Bytes → Bool → Response
unfolding allow_value
unmatched_response router target path_matched =
    if not path_matched
    then status_response 404
    else add_allow (status_response 405) (allow_value (allowed_methods router target))

unfoldable pub run_handler : Handler → Request → Response
run_handler handler request = elim (handler request) [
  | none ↦ status_response 500
  | some response ↦ response
]

-- Past the last middleware.
unfoldable pub dispatch : Exchange → Request → Run
unfolding unmatched_response run_handler
dispatch exchange request = elim exchange.match.handler [
  | some handler ↦ record { answer = some (run_handler handler request); handled = request ∷ [] }
  | none ↦
      without_handler
        (unmatched_response exchange.router exchange.original.target exchange.match.path_matched)
]

-- `step`, at the middleware from `index` on.
unfoldable pub step : Exchange → List Middleware → Next
unfolding dispatch
step exchange [] = dispatch exchange
step exchange (middleware ∷ chain) = λ request. middleware request (step exchange chain)

unfoldable pub add : Pipeline → Method → Bytes → Handler → Pipeline
add pipeline method path handler = record pipeline {
  router = Router.add pipeline.router method path handler;
}

unfoldable pub use_middleware : Pipeline → Middleware → Pipeline
use_middleware pipeline middleware = record pipeline {
  middlewares = pipeline.middlewares ++ middleware ∷ [];
}

-- The request with the captures bound, as `respond` leaves it.
unfoldable pub bind : Pipeline → Request → Request
bind pipeline request = record request {
  params = (Router.find pipeline.router request.method request.target).params;
}

unfoldable pub exchange_of : Pipeline → Request → Exchange
unfolding bind
exchange_of pipeline request = record {
  router = pipeline.router;
  chain = pipeline.middlewares;
  match = Router.find pipeline.router request.method request.target;
  original = bind pipeline request;
}

-- The call of the first step.
unfoldable pub call : Pipeline → Request → Run
unfolding exchange_of step
call pipeline request =
    step (exchange_of pipeline request) pipeline.middlewares (bind pipeline request)

-- The response of a chain that answered or threw.
abbrev pub caught : Option Response → Response
caught none = status_response 500
caught (some response) = response

-- The response, and the request as the caller has it afterwards.
unfoldable pub respond : Pipeline → Request → Response × Request
unfolding call
respond pipeline request = (caught (call pipeline request).answer, bind pipeline request)
