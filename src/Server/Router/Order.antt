-- ===== src/Server/Router/Order.antt =====
-- Registration order in src/server/router.cpp: a later registration never takes over.
use carafe.Base.{
  Bool, true, false, none, List, [], ◌∷◌, ◌++◌, ◌≡◌, refl, inl, inr, arith, Bytes, Bool-cases,
  Option-cases,
}
use carafe.Http.Request.{Method, head}
use carafe.Server.Pattern.{matches, routable_path}
use carafe.Server.Router.{Route, has_handler, same_method, add, find, find_in, remember}

module _ {ℓ} {Handler : Type ℓ} where
  -- Without a fallback, a route that answered still does, however the list goes on.
  find_in-append :
      (routes later : List (Route Handler)) (method : Method) (path : Bytes) (matched : Bool)
      → same_method method head ≡ false
      → has_handler (find_in routes method path none matched) ≡ true
      → find_in (routes ++ later) method path none matched ≡ find_in routes method path none matched
  unfolding find_in remember
  find_in-append [] later method path matched n h = absurd (ground arith)
  find_in-append (route ∷ routes) later method path matched n h =
      elim (Option-cases (matches true route.pattern path)) [
        | inl e ↦ rw (e, find_in) (find_in-append routes later method path matched n (ground arith))
        | inr (captured, e) ↦ elim (Bool-cases (same_method route.method method)) [
          | inl same ↦ rw (e, same, find_in) refl
          | inr other ↦
              let f : remember method route captured none ≡ none = rw (n, remember) refl in
              rw (e, other, f, find_in)
                (find_in-append routes later method path true n (ground arith))
        ]
      ]

  -- If `find` has a handler for a method other than HEAD, then after any further registration it
  -- still gives the same answer.
  pub find-add :
      (routes : List (Route Handler)) (method : Method) (target : Bytes)
      → (other : Method) (path : Bytes) (handler : Handler) → same_method method head ≡ false
      → has_handler (find routes method target) ≡ true
      → find (add routes other path handler) method target ≡ find routes method target
  unfolding find add
  find-add routes method target other path handler n h =
      find_in-append routes _ method (routable_path target) false n h
