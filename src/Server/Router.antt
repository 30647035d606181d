-- ===== src/Server/Router.antt =====
-- src/server/router.hpp and src/server/router.cpp: the class `Router`. A handler is any value.
mod Lookup
pub mod Allowed
mod Order
mod Tests
use carafe.Base.{
  ℕ, Bool, true, false, not, ◌&&◌, ◌||◌, Option, none, some, List, [], ◌∷◌, ◌++◌, ◌==◌,
  if◌then◌else◌, Bytes,
}
use carafe.Http.Path.{normalize_path}
use carafe.Http.Request.{
  Method, get, head, post, put, delete, connect, options, trace, patch, Params,
}
use carafe.Server.Pattern.{Pattern, matches, compile, routable_path}

-- The value of an enumerator, by which two methods are compared.
abbrev pub method_value : Method → ℕ
method_value get = 0
method_value head = 1
method_value post = 2
method_value put = 3
method_value delete = 4
method_value connect = 5
method_value options = 6
method_value trace = 7
method_value patch = 8

abbrev pub same_method : Method → Method → Bool
same_method a b = method_value a == method_value b

unfoldable pub contains : List Method → Method → Bool
contains [] method = false
contains (m ∷ methods) method = same_method m method || contains methods method

unfoldable pub allow : Method → List Method → List Method
unfolding contains
allow method allowed =
    let with_method = if not (contains allowed method) then allowed ++ method ∷ [] else allowed in
    if same_method method get && not (contains with_method head)
    then with_method ++ head ∷ []
    else with_method

module _ {ℓ} (Handler : Type ℓ) where
  pub record Route : Type ℓ where
    pub method : Method
    pub pattern : Pattern
    pub handler : Handler

  -- `Match`: a null handler is `none`.
  pub record Match : Type ℓ where
    pub handler : Option Handler
    pub path_matched : Bool
    pub params : Params

-- The members of `Match`, and the loops, for one type of handler.
module _ {ℓ} {Handler : Type ℓ} where
  -- `operator bool` of a `Match`.
  abbrev pub has_handler : Match Handler → Bool
  has_handler found = elim found.handler [ none ↦ false | some handler ↦ true ]

  -- `routes_`, in the order of registration.
  unfoldable pub add : List (Route Handler) → Method → Bytes → Handler → List (Route Handler)
  add routes method path handler =
      routes
      ++ record { method = method; pattern = compile (normalize_path path); handler = handler } ∷ []

  -- The first Get route is remembered for a Head.
  unfoldable pub remember :
      Method → Route Handler → Params → Option (Handler × Params) → Option (Handler × Params)
  remember method route captured none =
      if same_method method head && same_method route.method get
      then some (route.handler, captured)
      else none
  remember method route captured (some fallback) = some fallback

  unfoldable pub find_in :
      List (Route Handler) → Method → Bytes → Option (Handler × Params) → Bool → Match Handler
  unfolding remember
  find_in [] method path (some (handler, params)) path_matched = record {
    handler = some handler;
    path_matched = true;
    params = params;
  }
  find_in [] method path none path_matched = record {
    handler = none;
    path_matched = path_matched;
    params = [];
  }
  find_in (route ∷ routes) method path fallback path_matched =
      elim (matches true route.pattern path) [
        | none ↦ find_in routes method path fallback path_matched
        | some captured ↦
            if same_method route.method method
            then record { handler = some route.handler; path_matched = true; params = captured }
            else find_in routes method path (remember method route captured fallback) true
      ]

  unfoldable pub find : List (Route Handler) → Method → Bytes → Match Handler
  unfolding find_in
  find routes method target = find_in routes method (routable_path target) none false

  unfoldable pub allowed_in : List (Route Handler) → Bytes → List Method → List Method
  unfolding allow
  allowed_in [] path allowed = allowed
  allowed_in (route ∷ routes) path allowed = elim (matches false route.pattern path) [
    | none ↦ allowed_in routes path allowed
    | some captured ↦ allowed_in routes path (allow route.method allowed)
  ]

  unfoldable pub allowed_methods : List (Route Handler) → Bytes → List Method
  unfolding allowed_in
  allowed_methods routes target = allowed_in routes (routable_path target) []
