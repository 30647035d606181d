-- ===== src/Server/Router/Allowed.antt =====
-- `Router::allowed_methods` and `Router::find` of src/server/router.cpp agree.
use carafe.Base.{
  Bool, true, false, not, ◌&&◌, ◌||◌, Option, none, some, List, [], ◌∷◌, ◌++◌, ◌≡◌, refl, sym, ap,
  ◌∙◌, inl, inr, arith, if◌then◌else◌, Bytes, get_elem?, Bool-cases, Option-cases, ==_iff, subst,
}
use carafe.Http.Request.{
  Method, get, head, post, put, delete, connect, options, trace, patch, Params,
}
use carafe.Server.Pattern.{matches, routable_path}
use carafe.Server.Pattern.Agree.{matches_agrees}
use carafe.Server.Router.{
  Route, Match, has_handler, method_value, same_method, contains, allow, find, allowed_in,
  allowed_methods,
}
use carafe.Server.Router.Lookup.{first_route, any_route, chosen, as_match, find_lem}

abbrev all_methods : List Method
all_methods = get ∷ head ∷ post ∷ put ∷ delete ∷ connect ∷ options ∷ trace ∷ patch ∷ []

get_elem-value : (m : Method) → get_elem? all_methods (method_value m) ≡ some m
get_elem-value get = refl
get_elem-value head = refl
get_elem-value post = refl
get_elem-value put = refl
get_elem-value delete = refl
get_elem-value connect = refl
get_elem-value options = refl
get_elem-value trace = refl
get_elem-value patch = refl

pub same_method→≡ : (a b : Method) → same_method a b ≡ true → a ≡ b
same_method→≡ a b h =
    let e = (==_iff (method_value a) (method_value b)).0 h in
    let f : some a ≡ some b =
      sym (get_elem-value a) ∙ ap (get_elem? all_methods) e ∙ get_elem-value b in
    cc

contains-append :
    (xs : List Method) (a m : Method)
    → contains (xs ++ a ∷ []) m ≡ (contains xs m || same_method a m)
unfolding contains
contains-append [] a m = ground arith
contains-append (x ∷ xs) a m = ground (arith, contains-append xs a m)

-- Adding a method that is not there yet.
abbrev include : List Method → Method → List Method
include xs a = if not (contains xs a) then xs ++ a ∷ [] else xs

contains-include :
    (xs : List Method) (a m : Method)
    → contains (include xs a) m ≡ (contains xs m || same_method a m)
contains-include xs a m = elim (Bool-cases (contains xs a)) [
  | inr out ↦ rw out (contains-append xs a m)
  | inl there ↦ elim (Bool-cases (same_method a m)) [
    | inr other ↦ rw there (ground arith)
    | inl same ↦
        let e : contains xs m ≡ true =
          subst (λ b. contains xs b ≡ true) (same_method→≡ a m same) there in
        rw there (ground arith)
  ]
]

contains-allow :
    (xs : List Method) (a m : Method)
    → contains (allow a xs) m
      ≡ (contains xs m || same_method a m || (same_method a get && same_method head m))
unfolding allow
contains-allow xs a m =
    ground (arith, contains-include xs a m, contains-include (include xs a) head m)

module _ {ℓ} {Handler : Type ℓ} where
  abbrev pub is_found : Option (Handler × Params) → Bool
  is_found none = false
  is_found (some found) = true

  chosen-matched :
      (route : Route Handler) (routes : List (Route Handler)) (m : Method) (path : Bytes)
      (captured : Params)
      → matches true route.pattern path ≡ some captured
      → is_found (chosen (route ∷ routes) m path) ≡ (
          same_method route.method m
          || (same_method route.method get && same_method m head)
          || is_found (chosen routes m path))
  unfolding chosen first_route
  chosen-matched route routes m path captured e = ground arith

  chosen-unmatched :
      (route : Route Handler) (routes : List (Route Handler)) (m : Method) (path : Bytes)
      → matches true route.pattern path ≡ none
      → chosen (route ∷ routes) m path ≡ chosen routes m path
  unfolding chosen first_route
  chosen-unmatched route routes m path e = rw (e, first_route) refl

  contains-allowed_in :
      (routes : List (Route Handler)) (path : Bytes) (allowed : List Method) (m : Method)
      → contains (allowed_in routes path allowed) m
        ≡ (contains allowed m || is_found (chosen routes m path))
  unfolding allowed_in
  contains-allowed_in [] path allowed m = unfold chosen first_route in ground arith
  contains-allowed_in (route ∷ routes) path allowed m =
      let agree = matches_agrees route.pattern path in
      elim (Option-cases (matches false route.pattern path)) [
        | inl n ↦
            let missed : matches true route.pattern path ≡ none = ground arith in
            rw (n, allowed_in)
              (contains-allowed_in routes path allowed m
                ∙ sym (
                    ap (λ c. contains allowed m || is_found c)
                      (chosen-unmatched route routes m path missed)))
        | inr (captured, e) ↦ elim (Option-cases (matches true route.pattern path)) [
          | inl missed ↦ absurd (ground arith)
          | inr (found, f) ↦
              let later = contains-allowed_in routes path (allow route.method allowed) m in
              let added = contains-allow allowed route.method m in
              let matched = chosen-matched route routes m path found f in
              rw (e, allowed_in) (ground arith)
        ]
      ]

  has_handler_lem :
      (o : Option (Handler × Params)) (matched : Bool)
      → has_handler (as_match o matched) ≡ is_found o
  unfolding as_match
  has_handler_lem o matched = ground arith

  -- `allowed_methods` lists a method for a target exactly if `find` has a handler for that method
  -- and that target.
  pub allowed_methods-find :
      (routes : List (Route Handler)) (method : Method) (target : Bytes)
      → contains (allowed_methods routes target) method ≡ has_handler (find routes method target)
  unfolding allowed_methods contains
  allowed_methods-find routes method target =
      let path = routable_path target in
      rw (find_lem routes method target) (
        contains-allowed_in routes path [] method
        ∙ sym (has_handler_lem (chosen routes method path) (any_route routes path)))

  first_route-any_route :
      (routes : List (Route Handler)) (method : Method) (path : Bytes)
      → is_found (first_route routes method path) ≡ true
      → any_route routes path ≡ true
  unfolding first_route any_route
  first_route-any_route [] method path h = absurd (ground arith)
  first_route-any_route (route ∷ routes) method path h =
      elim (Option-cases (matches true route.pattern path)) [
        | inl n ↦
            rw (n, any_route) (first_route-any_route routes method path (rw (n, first_route) at h))
        | inr (captured, m) ↦ rw (m, any_route) refl
      ]

  chosen-any_route :
      (routes : List (Route Handler)) (method : Method) (path : Bytes)
      → is_found (chosen routes method path) ≡ true
      → any_route routes path ≡ true
  unfolding chosen
  chosen-any_route routes method path h =
      ground
        (arith, first_route-any_route routes method path, first_route-any_route routes get path)

  as_match-path_matched : (o : Option (Handler × Params)) → (as_match o true).path_matched ≡ true
  unfolding as_match
  as_match-path_matched none = refl
  as_match-path_matched (some found) = refl

  -- If a target has a handler for some method, then its path is matched for every method.
  pub find-path_matched :
      (routes : List (Route Handler)) (method other : Method) (target : Bytes)
      → has_handler (find routes other target) ≡ true
      → (find routes method target).path_matched ≡ true
  find-path_matched routes method other target h =
      let path = routable_path target in
      let known = chosen-any_route routes other path (
        sym (has_handler_lem (chosen routes other path) (any_route routes path))
        ∙ sym (ap has_handler (find_lem routes other target))
        ∙ h) in
      ap (λ (m : Match Handler). m.path_matched) (find_lem routes method target)
      ∙ rw known (as_match-path_matched (chosen routes method path))
