-- ===== src/Server/Pipeline/Chain.antt =====
-- The order of the middleware in src/server/pipeline.cpp.
use carafe.Base.{List, [], ◌∷◌, ◌++◌, ◌≡◌, refl, sym, ◌∙◌, ap}
use carafe.Http.Request.{Request}
use carafe.Server.Pipeline.{
  caught, call, Next, Middleware, Pipeline, Exchange, dispatch, step, bind, exchange_of,
  use_middleware, respond,
}

-- A chain around any end.
unfoldable pub wrap : List Middleware → Next → Next
wrap [] next = next
wrap (middleware ∷ chain) next = λ request. middleware request (wrap chain next)

step-wrap :
    (exchange : Exchange) (chain : List Middleware)
    → step exchange chain ≡ wrap chain (dispatch exchange)
unfolding step wrap
step-wrap exchange [] = refl
step-wrap exchange (middleware ∷ chain) =
    ap (λ next request. middleware request next) (step-wrap exchange chain)

wrap-append :
    (chain later : List Middleware) (next : Next)
    → wrap (chain ++ later) next ≡ wrap chain (wrap later next)
unfolding wrap
wrap-append [] later next = refl
wrap-append (middleware ∷ chain) later next =
    ap (λ inner request. middleware request inner) (wrap-append chain later next)

-- The chain's end for a request: the handler, or the response for no handler.
abbrev pub end_of : Pipeline → Request → Next
end_of pipeline request = dispatch (exchange_of pipeline request)

-- After one more `use`, `respond` answers with the earlier middleware wrapped, the first
-- outermost, around the new one, and with that around the handler or the response for no handler;
-- a chain that throws is answered with a 500.
pub respond-use_middleware :
    (pipeline : Pipeline) (middleware : Middleware) (request : Request)
    → (respond (use_middleware pipeline middleware) request).0
      ≡ caught
          (wrap pipeline.middlewares
            (λ passed. middleware passed (end_of pipeline request))
            (bind pipeline request)).answer
unfolding respond call step use_middleware exchange_of bind dispatch wrap
respond-use_middleware pipeline middleware request =
    let exchange = exchange_of (use_middleware pipeline middleware) request in
    ap (λ (next : Next). caught (next (bind pipeline request)).answer)
      (step-wrap exchange (pipeline.middlewares ++ middleware ∷ [])
        ∙ wrap-append pipeline.middlewares (middleware ∷ []) (end_of pipeline request))

abbrev pub pass_through : Middleware
pass_through request next = next request

-- Adding a middleware that does nothing but call the rest of the chain changes neither the
-- response nor the request that `respond` leaves.
pub respond-pass_through :
    (pipeline : Pipeline) (request : Request)
    → respond (use_middleware pipeline pass_through) request ≡ respond pipeline request
unfolding respond call step use_middleware exchange_of bind dispatch wrap
respond-pass_through pipeline request =
    let exchange = exchange_of pipeline request in
    ap (λ response. (response, bind pipeline request))
      (respond-use_middleware pipeline pass_through request
        ∙ ap (λ (next : Next). caught (next (bind pipeline request)).answer)
            (sym (step-wrap exchange pipeline.middlewares)))
