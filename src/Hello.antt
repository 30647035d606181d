-- ===== src/Hello.antt =====
-- examples/hello.cpp: the application that `main` builds. The library's version string is a parameter,
-- and so is the clock of the log.
mod Guard
mod Main
mod Tests
use carafe.App
use carafe.App.{App, new_app}
use carafe.Base.{
  ℕ, Bool, true, false, not, ◌&&◌, Option, none, some, [], ◌++◌, if◌then◌else◌, Bytes, codes, equal,
  length, ◌-◌, ◌/◌,
}
use carafe.Http.Headers
use carafe.Http.Request
use carafe.Http.Request.{Method, Request, params_get, method_name}
use carafe.Http.Response.{Response, text_response, status_response, to_string}
use carafe.Server.Config.{PoolLimits, Deadlines}
use carafe.Server.Pipeline.{Next, Handler, Middleware, without_handler}

abbrev pub port : ℕ
port = 8080

abbrev pub limits : PoolLimits
limits = record { workers = 16; queued = 64; queue_wait = 2000 }

abbrev pub deadlines : Deadlines
deadlines = record { idle = 10000; request = 10000 }

abbrev pub value_or : Option Bytes → Bytes → Bytes
value_or none fallback = fallback
value_or (some value) fallback = value

-- A 200 with the text.
abbrev pub says : Bytes → Option Response
says body = some (text_response 200 body)

abbrev pub param : Request → Bytes → Bytes → Bytes
param request name fallback = value_or (params_get request.params name) fallback

abbrev pub index : Bytes → Handler
index version request = says (codes "carafe " ++ version ++ codes "\ntry /hello\n")

abbrev pub asked_for : Handler
asked_for request = says (codes "you asked for " ++ request.target ++ codes "\n")

abbrev pub greet : Handler
greet request =
    says (codes "hello, " ++ param request (codes "name") (codes "world") ++ codes "!\n")

abbrev pub user_number : Handler
user_number request = says (codes "user #" ++ param request (codes "id") (codes "?") ++ codes "\n")

abbrev pub user_name : Handler
user_name request =
    says (codes "user named " ++ param request (codes "name") (codes "?") ++ codes "\n")

abbrev pub file_at : Handler
file_at request =
    says
      (codes "you asked for the file at " ++ param request (codes "rest") (codes "?") ++ codes "\n")

abbrev pub echo : Handler
echo request = says request.body

abbrev pub size : Handler
size request = says (to_string (length request.body) ++ codes " bytes\n")

abbrev pub store : Handler
store request =
    says (param request (codes "key") (codes "?") ++ codes " = " ++ request.body ++ codes "\n")

abbrev pub extend : Handler
extend request =
    says (param request (codes "key") (codes "?") ++ codes " += " ++ request.body ++ codes "\n")

abbrev pub remove : Handler
remove request = says (param request (codes "key") (codes "?") ++ codes " deleted\n")

abbrev pub allowed : Handler
allowed request =
    let response = text_response 200 [] in
    some (record response {
      headers =
          Headers.add response.headers
            (record { name = codes "allow"; value = codes "PUT, PATCH, DELETE, OPTIONS" });
    })

-- The routes with a named helper, in the order of their registration.
unfoldable pub with_routes : Bytes → App
with_routes version =
    let app = App.get new_app (codes "/") (index version) in
    let app = App.get app (codes "/hello") asked_for in
    let app = App.get app (codes "/hello/<name>") greet in
    let app = App.get app (codes "/users/<int:id>") user_number in
    let app = App.get app (codes "/users/<name>") user_name in
    let app = App.get app (codes "/files/<path:rest>") file_at in
    let app = App.post app (codes "/echo") echo in
    let app = App.post app (codes "/size") size in
    let app = App.put app (codes "/store/<key>") store in
    let app = App.patch app (codes "/store/<key>") extend in
    App.del app (codes "/store/<key>") remove

-- With OPTIONS, and whether it could be registered.
unfoldable pub with_options : Bytes → App × Bool
with_options version =
    App.route (with_routes version) Request.options (codes "/store/<key>") allowed

-- The line that the log writes, with the time in microseconds.
unfoldable pub log_line : Request → Response → ℕ → Bytes
log_line request response micros =
    method_name request.method
    ++ codes " "
    ++ request.target
    ++ codes " "
    ++ to_string response.status
    ++ codes " "
    ++ to_string (length response.body)
    ++ codes "B "
    ++ to_string micros
    ++ codes "us\n"

-- What comes back to the log, with what it prints: nothing, if a handler behind it has thrown.
abbrev pub with_line : ℕ → ℕ → Request → Option Response → Option Response × Bytes
with_line started now request none = (none, [])
with_line started now request (some response) =
    (some response, log_line request response ((now - started) / 1000))

-- The log with the clock before and behind `next`, in nanoseconds.
abbrev pub logged : ℕ → ℕ → Request → Next → Option Response × Bytes
logged started now request next = with_line started now request (next request).answer

-- What the log answers, whatever the clock says.
abbrev pub log : Middleware
log request next = next request

abbrev pub is_write : Method → Bool
is_write Request.put = true
is_write Request.patch = true
is_write Request.delete = true
is_write _ = false

abbrev pub has_token : Option Bytes → Bool
has_token none = false
has_token (some value) = equal value (codes "Bearer letmein")

unfoldable pub refuses : Request → Bool
refuses request =
    is_write request.method && not (has_token (Headers.get request.headers (codes "authorization")))

abbrev pub unauthorized : Response
unauthorized =
    let response = status_response 401 in
    record response {
      headers =
          Headers.add response.headers
            (record { name = codes "www-authenticate"; value = codes "Bearer realm=\"carafe\"" });
    }

abbrev pub guard : Middleware
guard request next = if refuses request then without_handler unauthorized else next request

unfoldable pub hello : Bytes → App
hello version = App.use_middleware (App.use_middleware (with_options version).0 log) guard
