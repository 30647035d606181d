-- ===== src/App/Tests.antt =====
-- Tests of src/app.cpp, and a run of its theorem.
use carafe.Base.{ℕ, true, false, some, List, [], ◌∷◌, ◌≡◌, refl, codes}
use carafe.App.{invalid_limits, accept_failed, new_app, route, Run, run}
use carafe.App.Closes.{Closes, run-Closes}
use carafe.Http.Request
use carafe.Http.Response.{status_response}
use carafe.Net.Listener.{gave, sys_failed, Kernel, listen_on}
use carafe.Server.AcceptLoop.{Round, accept_rounds}
use carafe.Server.Config.{PoolLimits, default_limits, default_deadlines}
use carafe.Server.Pipeline.{Handler}
use carafe.Server.Pool.{served, closed_unserved, submit, work_at, destroy}
use carafe.Server.Pool.Draining.{Move}
use carafe.Server.Serve.{accept_retry_for}

abbrev fine : Handler
fine request = some (status_response 200)

no_head_route : route new_app Request.head (codes "/a") fine ≡ (new_app, false)
unfolding route
no_head_route = refl

abbrev kernel : Kernel
kernel = record { socket = gave 3; bind = 0; getsockname = gave 0; listen = 0 }

no_workers :
    run kernel 8080 (record default_limits { workers = 0 }) default_deadlines [] [] []
    ≡ some (record { error = some invalid_limits; closed = []; ends = [] })
unfolding run
no_workers = refl

abbrev small : PoolLimits
small = record { workers = 1; queued = 2; queue_wait = 1 }

abbrev step : ℕ → Move
step now = record { thread = 0; now = now; raised = false }

-- Two clients, then EBADF; the thread serves the first, and the second is still queued.
abbrev rounds : List Round
rounds =
    record { moves = []; answers = gave 7 ∷ []; now = 0; raised = false; pick = 0 }
    ∷ record { moves = step 1 ∷ []; answers = gave 8 ∷ []; now = 4; raised = false; pick = 0 }
    ∷ record { moves = step 5 ∷ []; answers = sys_failed 9 ∷ []; now = 7; raised = false; pick = 0 }
    ∷ []

abbrev returned : Run
returned = record {
  error = some accept_failed;
  closed = 3 ∷ [];
  ends = (7, served) ∷ (8, closed_unserved) ∷ [];
}

returns :
    run kernel 8080 small default_deadlines (true ∷ []) rounds (step 8 ∷ step 9 ∷ [])
    ≡ some returned
unfolding run listen_on accept_rounds accept_retry_for submit work_at destroy
returns = refl

run-Closes_example : Closes accept_failed 3 8 rounds returned
run-Closes_example =
    run-Closes kernel 8080 small default_deadlines (true ∷ []) rounds (step 8 ∷ step 9 ∷ [])
      returned accept_failed 3 8 refl returns refl
