-- ===== src/App.antt =====
-- src/app.cpp, with src/include/carafe/app.hpp. Durations are not negative here; the source refuses
-- negative ones as it refuses zero.
mod Closes
mod Tests
use carafe.Base.{
  ℕ, Bool, true, false, not, ◌&&◌, Option, none, some, List, [], ◌∷◌, ltb, if◌then◌else◌, Bytes,
  codes,
}
use carafe.Http.Request
use carafe.Http.Request.{Method}
use carafe.Net.Listener.{Listener, ListenResult, listening, refused, Kernel, listen_on}
use carafe.Server.AcceptLoop.{Round, Serving, serve_forever, leave}
use carafe.Server.Config.{PoolLimits, Deadlines}
use carafe.Server.Pipeline
use carafe.Server.Pipeline.{Handler, Middleware, Pipeline}
use carafe.Server.Pool.{Fate}
use carafe.Server.Pool.Draining.{Move}

pub data RunError : Type 0 where
  invalid_limits invalid_deadlines bind_failed accept_failed : RunError

unfoldable pub valid_pool_limits : PoolLimits → Bool
valid_pool_limits limits = ltb 0 limits.workers && (ltb 0 limits.queued && ltb 0 limits.queue_wait)

unfoldable pub valid_deadlines : Deadlines → Bool
valid_deadlines deadlines = ltb 0 deadlines.idle && ltb 0 deadlines.request

unfoldable pub describe : RunError → Bytes
describe invalid_limits = codes "the pool limits would serve nobody"
describe invalid_deadlines = codes "a deadline of zero is no deadline at all"
describe bind_failed = codes "the port could not be bound"
describe accept_failed = codes "accepting connections stopped"

pub record App : Type 0 where
  pub pipeline : Pipeline

abbrev pub new_app : App
new_app = record { pipeline = record { router = []; middlewares = [] } }

unfoldable pub get : App → Bytes → Handler → App
get app path handler = record { pipeline = Pipeline.add app.pipeline Request.get path handler }

unfoldable pub post : App → Bytes → Handler → App
post app path handler = record { pipeline = Pipeline.add app.pipeline Request.post path handler }

unfoldable pub put : App → Bytes → Handler → App
put app path handler = record { pipeline = Pipeline.add app.pipeline Request.put path handler }

unfoldable pub patch : App → Bytes → Handler → App
patch app path handler = record { pipeline = Pipeline.add app.pipeline Request.patch path handler }

unfoldable pub del : App → Bytes → Handler → App
del app path handler = record { pipeline = Pipeline.add app.pipeline Request.delete path handler }

unfoldable pub use_middleware : App → Middleware → App
use_middleware app middleware = record {
  pipeline = Pipeline.use_middleware app.pipeline middleware;
}

abbrev pub is_routable : Method → Bool
is_routable Request.head = false
is_routable Request.connect = false
is_routable Request.get = true
is_routable Request.post = true
is_routable Request.put = true
is_routable Request.patch = true
is_routable Request.delete = true
is_routable Request.options = true
is_routable Request.trace = true

unfoldable pub route : App → Method → Bytes → Handler → App × Bool
route app method path handler =
    if not (is_routable method)
    then (app, false)
    else (record { pipeline = Pipeline.add app.pipeline method path handler }, true)

-- Where `run` stands: its error once it has returned, the descriptors of its listener that were
-- closed, and how the clients' sockets came to their closes.
pub record Run : Type 0 where
  pub error : Option RunError
  pub closed : List ℕ
  pub ends : List (ℕ × Fate)

abbrev pub give_up : RunError → List ℕ → Run
give_up error closed = record { error = some error; closed = closed; ends = [] }

-- Behind the accept loop: the pool is destroyed, then the listener.
abbrev pub return_from : Listener → Option (List (ℕ × Fate)) → Option Run
return_from listener none = none
return_from listener (some ends) =
    some (record { error = some accept_failed; closed = listener.socket ∷ []; ends = ends })

abbrev pub after_serving : Listener → List Move → Serving → Option ℕ → Option Run
after_serving listener last serving none =
    some (record { error = none; closed = []; ends = serving.pool.ends })
after_serving listener last serving (some os_error) = return_from listener (leave serving last)

abbrev pub serve_on : List Move → Listener → Option Serving → Option Run
serve_on last listener none = none
serve_on last listener (some serving) = after_serving listener last serving serving.ended

abbrev pub after_listen :
    PoolLimits → List Bool → List Round → List Move → ListenResult × List ℕ → Option Run
after_listen limits started rounds last (refused error os_error, closed) =
    some (give_up bind_failed closed)
after_listen limits started rounds last (listening listener, closed) =
    serve_on last listener (serve_forever limits started rounds)

-- `none` where a step of the threads is none that they can make, or the pool is not joined by `last`.
unfoldable pub run :
    Kernel → ℕ → PoolLimits → Deadlines → List Bool → List Round → List Move → Option Run
unfolding valid_pool_limits valid_deadlines
run kernel port limits deadlines started rounds last =
    if not (valid_pool_limits limits)
    then some (give_up invalid_limits [])
    else if not (valid_deadlines deadlines)
    then some (give_up invalid_deadlines [])
    else after_listen limits started rounds last (listen_on kernel port)
