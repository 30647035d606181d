-- ===== src/Hello/Guard.antt =====
-- The guard of examples/hello.cpp in front of every route of its application.
use carafe.App
use carafe.App.{App}
use carafe.Base.{
  true, false, List, [], ◌∷◌, Bytes, ◌≡◌, refl, ◌∙◌, inl, inr, Bool-cases, if◌then◌else◌,
}
use carafe.Hello.{with_routes, with_options, log, guard, refuses, unauthorized, hello}
use carafe.Http.Request.{Request}
use carafe.Server.Pipeline.Chain.{end_of}
use carafe.Server.Pipeline.{
  Next, Handler, Pipeline, call, without_handler, dispatch, step, bind, exchange_of, add,
  use_middleware,
}
use carafe.Server.Router.{Route}

abbrev bare : List (Route Handler) → Pipeline
bare router = record { router = router; middlewares = [] }

-- Binding captures does not touch what the guard reads.
refuses-bind :
    (router : List (Route Handler)) (request : Request)
    → refuses (bind (bare router) request) ≡ refuses request
unfolding refuses bind
refuses-bind router request = refl

guard-refuses :
    (request : Request) (next : Next)
    → refuses request ≡ true
    → guard request next ≡ without_handler unauthorized
guard-refuses request next e = rw e refl

guard-next :
    (request : Request) (next : Next) → refuses request ≡ false → guard request next ≡ next request
guard-next request next e = rw e refl

guarded :
    (router : List (Route Handler)) (request : Request)
    → call (record { router = router; middlewares = log ∷ guard ∷ [] }) request
      ≡ (if refuses request then without_handler unauthorized else call (bare router) request)
unfolding call step dispatch bind exchange_of
guarded router request =
    let bound = bind (bare router) request in
    let last = end_of (bare router) request in
    elim (Bool-cases (refuses request)) [
      | inl e ↦ rw e (guard-refuses bound last (refuses-bind router request ∙ e))
      | inr e ↦ rw e (guard-next bound last (refuses-bind router request ∙ e))
    ]

with_options-bare : (version : Bytes) → (with_options version).0.pipeline.middlewares ≡ []
unfolding with_options with_routes App.route App.get App.post App.put App.patch App.del add
with_options-bare version = refl

-- The application answers a PUT, PATCH or DELETE whose authorization field is not the token with
-- the 401, and calls no handler for it; for any other request it answers, and calls the handlers,
-- as the same application does that has the routes alone.
pub hello-guarded :
    (version : Bytes) (request : Request)
    → call (hello version).pipeline request ≡ (
        if refuses request
        then without_handler unauthorized
        else call (with_options version).0.pipeline request)
unfolding hello App.use_middleware use_middleware with_options with_routes App.route App.get
    App.post App.put App.patch App.del add
hello-guarded version request = guarded (with_options version).0.pipeline.router request
