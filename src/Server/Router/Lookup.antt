-- ===== src/Server/Router/Lookup.antt =====
-- `Router::find` and `Router::allowed_methods` of src/server/router.cpp against a description of the
-- route that answers.
use carafe.Base.{
  Bool, true, false, ◌||◌, Option, none, some, List, [], ◌∷◌, ◌≡◌, inl, inr, arith, if◌then◌else◌,
  Bytes, Option-cases,
}
use carafe.Http.Request.{Method, get, head, Params}
use carafe.Server.Pattern.{matches, routable_path}
use carafe.Server.Pattern.Agree.{is_match}
use carafe.Server.Router.{Route, Match, same_method, remember, find_in, find}

module _ {ℓ} {Handler : Type ℓ} where
  -- The first route that is registered for the method and matches the path, with its captures.
  unfoldable pub first_route : List (Route Handler) → Method → Bytes → Option (Handler × Params)
  first_route [] method path = none
  first_route (route ∷ routes) method path = elim (matches true route.pattern path) [
    | none ↦ first_route routes method path
    | some captured ↦
        if same_method route.method method
        then some (route.handler, captured)
        else first_route routes method path
  ]

  -- Whether any route matches the path.
  unfoldable pub any_route : List (Route Handler) → Bytes → Bool
  any_route [] path = false
  any_route (route ∷ routes) path =
      is_match (matches true route.pattern path) || any_route routes path

  abbrev pub or_else :
      Option (Handler × Params) → Option (Handler × Params) → Option (Handler × Params)
  or_else none later = later
  or_else (some first) later = some first

  -- A route for the method, or for a Head one for Get.
  unfoldable pub chosen : List (Route Handler) → Method → Bytes → Option (Handler × Params)
  unfolding first_route
  chosen routes method path =
      or_else (first_route routes method path)
        (if same_method method head then first_route routes get path else none)

  unfoldable pub as_match : Option (Handler × Params) → Bool → Match Handler
  as_match (some (handler, params)) path_matched = record {
    handler = some handler;
    path_matched = true;
    params = params;
  }
  as_match none path_matched = record { handler = none; path_matched = path_matched; params = [] }

  find_in_lem :
      (routes : List (Route Handler)) (method : Method) (path : Bytes)
      → (fallback : Option (Handler × Params)) (matched : Bool)
      → find_in routes method path fallback matched
        ≡ as_match
            (or_else (first_route routes method path) (
              or_else fallback
                (if same_method method head then first_route routes get path else none)))
            (matched || any_route routes path)
  unfolding find_in first_route any_route remember as_match
  find_in_lem [] method path none matched = ground arith
  find_in_lem [] method path (some fallback) matched = ground arith
  find_in_lem (route ∷ routes) method path fallback matched =
      elim (Option-cases (matches true route.pattern path)) [
        | inl n ↦
            rw (n, find_in, first_route, any_route)
              (find_in_lem routes method path fallback matched)
        | inr (captured, m) ↦
            let later =
              find_in_lem routes method path (remember method route captured fallback) true in
            ground arith
      ]

  -- `find` gives the handler and the captures of the first route that is registered for the method
  -- and matches the path; if there is none and the method is HEAD, those of the first such route
  -- for GET; otherwise no handler, and whether any route matches the path.
  pub find_lem :
      (routes : List (Route Handler)) (method : Method) (target : Bytes)
      → find routes method target
        ≡ as_match
            (chosen routes method (routable_path target))
            (any_route routes (routable_path target))
  unfolding find chosen
  find_lem routes method target = find_in_lem routes method (routable_path target) none false
