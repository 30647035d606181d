-- ===== src/Server/Pipeline/Unmatched.antt =====
-- What src/server/pipeline.cpp answers where no route claims a request.
use carafe.Base.{List, map, Bytes, true, false, [], ◌≡◌, refl, ◌∙◌, inl, inr, arith, Option-cases}
use carafe.Http.FieldList.{list_elements}
use carafe.Server.Pipeline.Allow.{list_elements-allow_value}
use carafe.Http.Request.{Request, Method, method_name}
use carafe.Http.Response.{Response, status_response}
use carafe.Server.Router
use carafe.Server.Router.{
  Route, Match, has_handler, contains, allow, same_method, allowed_methods, allowed_in,
}
use carafe.Server.Router.Allowed.{allowed_methods-find, find-path_matched}
use carafe.Server.Pipeline.{
  call, Handler, Pipeline, add_allow, allow_value, unmatched_response, dispatch, exchange_of, bind,
  respond, step,
}

-- A 405 that tells which methods have a handler for the target.
pub record NotAllowed (router : List (Route Handler)) (target : Bytes) (response : Response)
    : Type 0 where
  pub value : Bytes
  pub answer : response ≡ add_allow (status_response 405) value
  pub listed : list_elements value ≡ map method_name (allowed_methods router target)
  pub served :
      (method : Method)
      → contains (allowed_methods router target) method
        ≡ has_handler (Router.find router method target)

respond-unmatched :
    (pipeline : Pipeline) (request : Request)
    → pipeline.middlewares ≡ []
    → has_handler (Router.find pipeline.router request.method request.target) ≡ false
    → (respond pipeline request).0
      ≡ unmatched_response pipeline.router request.target
          (Router.find pipeline.router request.method request.target).path_matched
unfolding respond call step dispatch exchange_of bind
respond-unmatched pipeline request e n =
    elim (Option-cases (Router.find pipeline.router request.method request.target).handler) [
      | inl h ↦ rw (e, step, h) refl
      | inr (handler, h) ↦ absurd (ground arith)
    ]

-- In a pipeline without middleware, if `find` has no handler for the method of the request and its
-- target, but one for another method and this target, then the response is a 405 with a field
-- allow, whose elements are the names of the methods in the order of `allowed_methods`, and a
-- method is among these exactly if `find` has a handler for it and the target.
pub respond-NotAllowed :
    (pipeline : Pipeline) (request : Request) (other : Method)
    → pipeline.middlewares ≡ []
    → has_handler (Router.find pipeline.router request.method request.target) ≡ false
    → has_handler (Router.find pipeline.router other request.target) ≡ true
    → NotAllowed pipeline.router request.target (respond pipeline request).0
unfolding unmatched_response
respond-NotAllowed pipeline request other e n h =
    let methods = allowed_methods pipeline.router request.target in
    let known = find-path_matched pipeline.router request.method other request.target h in
    record {
      value = allow_value methods;
      answer = respond-unmatched pipeline request e n ∙ rw known refl;
      listed = list_elements-allow_value methods;
      served = λ method. allowed_methods-find pipeline.router method request.target;
    }
