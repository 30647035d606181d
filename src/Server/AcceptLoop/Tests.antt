-- ===== src/Server/AcceptLoop/Tests.antt =====
-- Tests of the accept loop of src/server/serve.cpp, and a run of its theorem.
use carafe.Base.{ℕ, true, false, some, List, [], ◌∷◌, ◌≡◌, refl, count}
use carafe.Net.Errno.{eintr, emfile, econnaborted}
use carafe.Net.Listener.{gave, sys_failed}
use carafe.Server.AcceptLoop.{Round, Serving, accept_rounds, serve_forever, leave}
use carafe.Server.AcceptLoop.Accounted.{accepted, IsFatal, serve_forever-accounted}
use carafe.Server.Config.{PoolLimits}
use carafe.Server.Pool.{serving, refused, served, closed_unserved, Pool, submit, work_at, destroy}
use carafe.Server.Pool.Draining.{Move}
use carafe.Server.Pool.Accounts.{accounted}
use carafe.Server.Serve.{accept_retry_for}

abbrev small : PoolLimits
small = record { workers = 1; queued = 1; queue_wait = 1 }

abbrev step : ℕ → Move
step now = record { thread = 0; now = now; raised = false }

-- EBADF ends it, after two clients, a pause and an aborted connection.
abbrev rounds : List Round
rounds =
    record {
      moves = [];
      answers = sys_failed eintr ∷ gave 7 ∷ [];
      now = 0;
      raised = false;
      pick = 0;
    }
    ∷ record { moves = []; answers = sys_failed emfile ∷ []; now = 1; raised = false; pick = 0 }
    ∷ record {
      moves = step 2 ∷ step 3 ∷ [];
      answers = gave 8 ∷ [];
      now = 4;
      raised = false;
      pick = 0;
    }
    ∷ record { moves = []; answers = gave 9 ∷ []; now = 5; raised = false; pick = 0 }
    ∷ record {
      moves = [];
      answers = sys_failed econnaborted ∷ [];
      now = 6;
      raised = false;
      pick = 0;
    }
    ∷ record { moves = []; answers = sys_failed 9 ∷ []; now = 7; raised = false; pick = 0 }
    ∷ []

abbrev left_pool : Pool
left_pool = record {
  limits = small;
  queue = record { client = 8; queued_at = 4 } ∷ [];
  stopping = false;
  workers = serving 7 ∷ [];
  ends = (9, refused) ∷ [];
}

abbrev over : Serving
over = record { pool = left_pool; ended = some 9; paused = 10 }

serves : serve_forever small (true ∷ []) rounds ≡ some over
unfolding accept_rounds accept_retry_for submit work_at
serves = refl

leaves :
    leave over (step 8 ∷ step 9 ∷ [])
    ≡ some ((9, refused) ∷ (7, served) ∷ (8, closed_unserved) ∷ [])
unfolding work_at destroy
leaves = refl

serve_forever-accounted_example :
    (count 8 (accepted rounds) ≡ accounted 8 over.pool) × IsFatal over.ended
serve_forever-accounted_example = serve_forever-accounted small (true ∷ []) rounds over 8 serves
