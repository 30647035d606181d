-- ===== src/Server/AcceptLoop.antt =====
-- `serve_forever` of src/server/serve.cpp: the accept loop, between whose rounds the pool's threads move.
pub mod Accounted
pub mod Left
mod Tests
use carafe.Base.{ℕ, ◌+◌, Bool, Option, none, some, List, [], ◌∷◌}
use carafe.Net.Listener.{Sys, gave, sys_failed, accept}
use carafe.Server.Config.{PoolLimits}
use carafe.Server.Pool.{Pool, construct, submit, stop, destroy, Fate}
use carafe.Server.Pool.Draining.{Move, run}
use carafe.Server.Serve.{AcceptRetry, never, immediately, after_a_pause, accept_retry_for}

-- In milliseconds.
abbrev pub accept_retry_pause : ℕ
accept_retry_pause = 10

-- What one round of the loop meets: steps of the threads before it, what `accept4` answers, and what
-- `submit` meets.
pub record Round : Type 0 where
  pub moves : List Move
  pub answers : List Sys
  pub now : ℕ
  pub raised : Bool
  pub pick : ℕ

-- Where the loop stands: it returned because of an error, or still accepts; the pauses are added up.
pub record Serving : Type 0 where
  pub pool : Pool
  pub ended : Option ℕ
  pub paused : ℕ

-- The switch on what a failed accept asks for.
abbrev pub retry : (ℕ → Option Serving) → Pool → ℕ → ℕ → AcceptRetry → Option Serving
retry again pool paused os_error never =
    some (record { pool = pool; ended = some os_error; paused = paused })
retry again pool paused os_error after_a_pause = again (paused + accept_retry_pause)
retry again pool paused os_error immediately = again paused

-- `again` is the rest of the loop.
abbrev pub after_accept :
    (Pool → ℕ → Option Serving) → Pool → ℕ → Round → Option (Sys × List Sys) → Option Serving
after_accept again pool paused round none =
    some (record { pool = pool; ended = none; paused = paused })
after_accept again pool paused round (some (gave client, _)) =
    again (submit pool client round.now round.raised round.pick) paused
after_accept again pool paused round (some (sys_failed os_error, _)) =
    retry (again pool) pool paused os_error (accept_retry_for os_error)

-- `none` where a step of the threads is none that they can make.
unfoldable pub accept_rounds : List Round → Pool → ℕ → Option Serving
unfolding accept
accept_rounds [] pool paused = some (record { pool = pool; ended = none; paused = paused })
accept_rounds (round ∷ rounds) pool paused = elim (run pool round.moves) [
  | none ↦ none
  | some moved ↦ after_accept (accept_rounds rounds) moved paused round (accept round.answers)
]

abbrev pub serve_forever : PoolLimits → List Bool → List Round → Option Serving
serve_forever limits started rounds = accept_rounds rounds (construct limits started) 0

-- The end of the scope: the pool's destructor, with the steps of the threads until they are joined.
abbrev pub leave : Serving → List Move → Option (List (ℕ × Fate))
leave serving moves = elim (run (stop serving.pool) moves) [
  | none ↦ none
  | some pool ↦ destroy pool
]
