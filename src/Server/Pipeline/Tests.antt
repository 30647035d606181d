-- ===== src/Server/Pipeline/Tests.antt =====
-- The pipeline of src/server/pipeline.cpp at concrete routes.
use carafe.Base.{true, false, some, [], ◌≡◌, refl, codes, equal, find}
use carafe.Http.Ascii.{ascii_hex_value, ascii_hex_digit, ascii_unreserved}
use carafe.Http.Path.{segments, walk_segment, walk_body, escape, normalize_path}
use carafe.Http.Request.{Request, empty_request, get, post}
use carafe.Http.Response.{status_response}
use carafe.Server.Pattern.{matches, compile, percent_decode, routable_path}
use carafe.Server.Router
use carafe.Server.Router.{has_handler, contains, allowed_methods}
use carafe.Server.Pipeline
use carafe.Server.Pipeline.{
  without_handler, Handler, Middleware, Pipeline, add_allow, allow_value, use_middleware, bind,
  respond,
}
use carafe.Server.Pipeline.Unmatched.{NotAllowed, respond-NotAllowed}

abbrev fine : Handler
fine request = some (status_response 200)

abbrev served : Pipeline
served = Pipeline.add (record { router = []; middlewares = [] }) post (codes "/a") fine

abbrev asked : Request
asked = record empty_request { method = get; target = codes "/a" }

unserved : has_handler (Router.find served.router asked.method asked.target) ≡ false
unfolding Pipeline.add Router.add Router.find compile normalize_path segments walk_body walk_segment
    equal find ascii_hex_value ascii_hex_digit ascii_unreserved matches percent_decode escape
    routable_path
unserved = refl

known : has_handler (Router.find served.router post asked.target) ≡ true
unfolding Pipeline.add Router.add Router.find compile normalize_path segments walk_body walk_segment
    equal find ascii_hex_value ascii_hex_digit ascii_unreserved matches percent_decode escape
    routable_path
known = refl

bare : served.middlewares ≡ []
unfolding Pipeline.add
bare = refl

respond-NotAllowed_example : NotAllowed served.router asked.target (respond served asked).0
respond-NotAllowed_example = respond-NotAllowed served asked post bare unserved known

-- Answers in place of the rest.
abbrev refuse_all : Middleware
refuse_all request next = without_handler (status_response 401)
