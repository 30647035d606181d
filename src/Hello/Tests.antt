-- ===== src/Hello/Tests.antt =====
-- Tests of examples/hello.cpp, and a run of its theorem.
use carafe.App
use carafe.App.{run, describe}
use carafe.Base.{
  ℕ, none, some, Option, if◌then◌else◌, Bytes, [], ◌∷◌, ◌≡◌, refl, true, false, codes, equal,
}
use carafe.Hello.Main.{Process, banner, main, Stops, main-Stops}
use carafe.Net.Listener.{Kernel, gave, sys_failed, listen_on}
use carafe.Http.Response.{Response, to_string, status_response, status_message, text_response}
use carafe.Hello.{
  with_routes, with_line, logged, log_line, log, with_options, hello, refuses, unauthorized,
}
use carafe.Hello.Guard.{hello-guarded}
use carafe.Http.Ascii.{ascii_equals_lowered}
use carafe.Http.Headers
use carafe.Http.Request.{Request, empty_request, put, http11, method_name}
use carafe.Server.Pipeline.{Next, call, without_handler}

abbrev version : Bytes
version = codes "0.1.0"

abbrev stored : Request
stored = record empty_request {
  method = put;
  target = codes "/store/k";
  version = http11;
  body = codes "v";
}

abbrev stored_with_token : Request
stored_with_token = record stored {
  headers = record { name = codes "authorization"; value = codes "Bearer letmein" } ∷ [];
}

refuses_without_token : refuses stored ≡ true
unfolding refuses Headers.get equal
refuses_without_token = refl

passes_with_token : refuses stored_with_token ≡ false
unfolding refuses Headers.get equal ascii_equals_lowered
passes_with_token = refl

hello-guarded_example : call (hello version).pipeline stored ≡ (
    if refuses stored
    then without_handler unauthorized
    else call (with_options version).0.pipeline stored)
hello-guarded_example = hello-guarded version stored

-- The log answers what is behind it.
with_line-answer :
    (started now : ℕ) (request : Request) (o : Option Response)
    → (with_line started now request o).0 ≡ o
with_line-answer started now request none = refl
with_line-answer started now request (some response) = refl

logged-log :
    (started now : ℕ) (request : Request) (next : Next)
    → (logged started now request next).0 ≡ (log request next).answer
logged-log started now request next = with_line-answer started now request (next request).answer

logged_line :
    logged 1000 43000 stored (λ request. without_handler unauthorized)
    ≡ (some unauthorized, codes "PUT /store/k 401 17B 42us\n")
unfolding log_line to_string method_name status_response status_message text_response
logged_line = refl

-- `socket` fails with EMFILE.
abbrev no_descriptor : Kernel
no_descriptor = record { socket = sys_failed 24; bind = 0; getsockname = gave 0; listen = 0 }

abbrev unbound : Process
unbound = record {
  out = banner version;
  err = codes "carafe stopped: the port could not be bound\n";
  status = some 1;
}

main-unbound : main no_descriptor [] [] [] version ≡ some unbound
unfolding main run listen_on describe with_options with_routes App.route
main-unbound = refl

main-Stops_example : Stops no_descriptor version unbound
main-Stops_example = main-Stops no_descriptor [] [] [] version unbound 1 main-unbound refl
