-- ===== src/Server/Pool/Tests.antt =====
-- Tests of src/server/pool.cpp, and runs of its theorems.
use carafe.Base.{true, false, some, List, [], ◌∷◌, ◌≡◌, refl, equal, codes}
use carafe.Http.Ascii.{ascii_lower}
use carafe.Http.Headers
use carafe.Http.Response.{
  status_response, serialize, to_string, status_message, text_response, status_line,
}
use carafe.Server.Config.{PoolLimits}
use carafe.Server.Pool.{
  ready, asleep, holding, exited, refused, expired, served, closed_unserved, Pool, construct,
  submit, work_at, work, stop, destroy, refusal_bytes,
}
use carafe.Server.Pool.Reach.{History, Reached, constructed, submits, works}
use carafe.Server.Pool.Sound.{IsSound, Reached-IsSound}
use carafe.Server.Pool.Awake.{IsAwake, Reached-IsAwake}
use carafe.Server.Pool.Draining.{Move, run, Drains, run-Drains}

refusal_announced :
    refusal_bytes
    ≡ codes
        "HTTP/1.1 503 Service Unavailable\r\ncontent-type: text/plain; charset=utf-8\r\nconnection: close\r\ncontent-length: 24\r\n\r\n503 Service Unavailable\n"
unfolding refusal_bytes serialize status_response Headers.add ascii_lower equal to_string
    status_message text_response status_line
refusal_announced = refl

abbrev pub small : PoolLimits
small = record { workers = 2; queued = 1; queue_wait = 1 }

-- The second thread could not be started.
abbrev empty_pool : Pool
empty_pool = construct small (true ∷ false ∷ [])

abbrev one_queued : Pool
one_queued = record empty_pool { queue = record { client = 7; queued_at = 0 } ∷ [] }

abbrev full : Pool
full = record one_queued { ends = (8, refused) ∷ [] }

abbrev pub busy : Pool
busy = record full { queue = []; workers = holding (record { client = 7; queued_at = 0 }) ∷ [] }

joins : submit empty_pool 7 0 false 0 ≡ one_queued
unfolding submit
joins = refl

refuses : submit one_queued 8 1 false 0 ≡ full
unfolding submit
refuses = refl

takes_it : work full 0 5 false ≡ some busy
unfolding work_at
takes_it = refl

expires :
    work busy 0 1000001 false
    ≡ some (record busy { workers = ready ∷ []; ends = (8, refused) ∷ (7, expired) ∷ [] })
unfolding work_at
expires = refl

abbrev pub past : History
past = record { submitted = 7 ∷ 8 ∷ []; queued = 7 ∷ []; taken = 7 ∷ [] }

pub busy-Reached : Reached small past busy
unfolding submit work_at
busy-Reached =
    works 0 5 false takes_it
      (submits 8 1 false 0 (submits 7 0 false 0 (constructed (true ∷ false ∷ []))))

Reached-IsSound_example : IsSound small past busy
Reached-IsSound_example = Reached-IsSound small busy-Reached

abbrev working : Pool
working = record busy { queue = record { client = 9; queued_at = 3 } ∷ [] }

abbrev last_moves : List Move
last_moves =
    record { thread = 0; now = 5; raised = false }
    ∷ record { thread = 0; now = 6; raised = false }
    ∷ record { thread = 0; now = 7; raised = false }
    ∷ []

abbrev joined : Pool
joined = record (stop working) { workers = exited ∷ []; ends = (8, refused) ∷ (7, served) ∷ [] }

runs_out : run (stop working) last_moves ≡ some joined
unfolding work_at
runs_out = refl

closes_the_queue : destroy joined ≡ some ((8, refused) ∷ (7, served) ∷ (9, closed_unserved) ∷ [])
unfolding destroy
closes_the_queue = refl

run-Drains_example : Drains working joined last_moves
run-Drains_example = run-Drains working joined last_moves runs_out

-- A thread that finds nothing falls asleep, and the next client wakes it.
abbrev dozing : Pool
dozing = record empty_pool { workers = asleep ∷ [] }

falls_asleep : work empty_pool 0 5 false ≡ some dozing
unfolding work_at
falls_asleep = refl

abbrev woken : Pool
woken = record empty_pool {
  queue = record { client = 7; queued_at = 6 } ∷ [];
  workers = ready ∷ [];
}

wakes : submit dozing 7 6 false 3 ≡ woken
unfolding submit
wakes = refl

woken-Reached : Reached small (record { submitted = 7 ∷ []; queued = 7 ∷ []; taken = [] }) woken
unfolding submit work_at
woken-Reached = submits 7 6 false 3 (works 0 5 false falls_asleep (constructed (true ∷ false ∷ [])))

Reached-IsAwake_example : IsAwake woken
Reached-IsAwake_example = Reached-IsAwake small woken-Reached
