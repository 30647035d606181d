-- ===== src/Server/Router/Tests.antt =====
-- The router of src/server/router.cpp at concrete routes, with numbers for handlers.
use carafe.Base.{ℕ, true, some, List, [], ◌∷◌, ◌≡◌, refl, codes, equal, find}
use carafe.Http.Ascii.{ascii_hex_value, ascii_hex_digit, ascii_unreserved}
use carafe.Http.Path.{segments, walk_segment, walk_body, escape, normalize_path}
use carafe.Http.Request.{get, head, post}
use carafe.Server.Pattern.{matches, compile, routable_path, percent_decode}
use carafe.Server.Router
use carafe.Server.Router.{
  Route, Match, has_handler, contains, allow, add, allowed_in, allowed_methods,
}
use carafe.Server.Router.Lookup.{chosen, any_route, as_match, find_lem}
use carafe.Server.Router.Allowed.{allowed_methods-find}

abbrev served : List (Route ℕ)
served =
    add (add (add [] get (codes "/users/<int:id>") 1) post (codes "/users/<name>") 2) get
      (codes "/files/<path:rest>") 3

abbrev found : Match ℕ
found = record {
  handler = some 1;
  path_matched = true;
  params = record { name = codes "id"; value = codes "42" } ∷ [];
}

head_found : Router.find served head (codes "/a/../users/42?x") ≡ found
unfolding Router.find add compile normalize_path segments walk_body walk_segment equal find
    ascii_hex_value ascii_hex_digit ascii_unreserved matches percent_decode escape routable_path
head_found = refl

post_found : has_handler (Router.find served post (codes "/users/7")) ≡ true
unfolding Router.find add compile normalize_path segments walk_body walk_segment equal find
    ascii_hex_value ascii_hex_digit ascii_unreserved matches percent_decode escape routable_path
post_found = refl

find_lem_example :
    Router.find served head (codes "/users/42")
    ≡ as_match
        (chosen served head (routable_path (codes "/users/42")))
        (any_route served (routable_path (codes "/users/42")))
find_lem_example = find_lem served head (codes "/users/42")

allowed_methods-find_example :
    contains (allowed_methods served (codes "/users/42")) head
    ≡ has_handler (Router.find served head (codes "/users/42"))
allowed_methods-find_example = allowed_methods-find served head (codes "/users/42")
