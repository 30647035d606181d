-- ===== src/Server/Pool.antt =====
-- src/server/pool.hpp and src/server/pool.cpp. The pool's threads are a list of where each of them
-- stands in `work`; each change under the mutex, and each part of `work` behind it, is one step, and any
-- order of steps can happen. Clocks are in nanoseconds.
pub mod Reach
pub mod Accounts
pub mod Sound
mod Desk
pub mod Awake
pub mod Notified
pub mod Draining
mod Tests
use carafe.Base.{
  ℕ, zero, suc, ◌+◌, ◌-◌, ◌*◌, Bool, true, false, not, ◌&&◌, Option, none, some, List, [], ◌∷◌,
  ◌++◌, map, ltb, if◌then◌else◌, Bytes, codes, length, get_elem?, set,
}
use carafe.Http.Headers
use carafe.Http.Response.{Response, status_response, serialize}
use carafe.Server.Config.{PoolLimits}

unfoldable pub refusal_bytes : Bytes
refusal_bytes =
    let response = status_response 503 in
    serialize
      (record response {
        headers =
            Headers.add response.headers
              (record { name = codes "connection"; value = codes "close" });
      })
      true

-- A connection in the queue; a client is the descriptor that its `Socket` owns.
pub record Waiting : Type 0 where
  pub client : ℕ
  pub queued_at : ℕ

-- Where a thread stands in `work`: about to test the condition of its wait under the lock, asleep in
-- the wait, with a job taken off the queue, in `serve_connection`, or behind the loop.
pub data Worker : Type 0 where
  ready : Worker
  asleep : Worker
  holding : Waiting → Worker
  serving : ℕ → Worker
  exited : Worker

-- How a client's socket came to its close: after the refusal of `submit`, after the refusal for
-- waiting too long, after `serve_connection` returned or threw, or with the queue.
pub data Fate : Type 0 where
  refused expired served dropped closed_unserved : Fate

-- `ends` records the closes, in order.
pub record Pool : Type 0 where
  pub limits : PoolLimits
  pub queue : List Waiting
  pub stopping : Bool
  pub workers : List Worker
  pub ends : List (ℕ × Fate)

-- The loop of the constructor: for each thread, whether it could be started.
abbrev pub start_workers : ℕ → List Bool → List Worker
start_workers zero started = []
start_workers (suc n) (true ∷ started) = ready ∷ start_workers n started
start_workers (suc n) _ = []

abbrev pub construct : PoolLimits → List Bool → Pool
construct limits started = record {
  limits = limits;
  queue = [];
  stopping = false;
  workers = start_workers limits.workers started;
  ends = [];
}

abbrev pub end_client : Pool → ℕ → Fate → Pool
end_client pool client fate = record pool { ends = pool.ends ++ (client, fate) ∷ [] }

-- `raised`: the lock or the growth of the queue throws.
unfoldable pub admits : Pool → Bool → Bool
admits pool raised = not raised && (not pool.stopping && ltb (length pool.queue) pool.limits.queued)

abbrev pub wake_first : List Worker → List Worker
wake_first [] = []
wake_first (asleep ∷ workers) = ready ∷ workers
wake_first (worker ∷ workers) = worker ∷ wake_first workers

abbrev pub notify_at : List Worker → ℕ → Option Worker → List Worker
notify_at workers pick (some asleep) = set workers pick ready
notify_at workers pick _ = wake_first workers

-- `notify_one`: if a thread is asleep, then one is woken, and `pick` says which; where `pick` names no
-- thread that is asleep, it is the first.
abbrev pub notify_one : List Worker → ℕ → List Worker
notify_one workers pick = notify_at workers pick (get_elem? workers pick)

abbrev pub notify_all : List Worker → List Worker
notify_all [] = []
notify_all (asleep ∷ workers) = ready ∷ notify_all workers
notify_all (worker ∷ workers) = worker ∷ notify_all workers

unfoldable pub submit : Pool → ℕ → ℕ → Bool → ℕ → Pool
unfolding admits
submit pool client now raised pick =
    if admits pool raised
    then record pool {
      queue = pool.queue ++ record { client = client; queued_at = now } ∷ [];
      workers = notify_one pool.workers pick;
    }
    else end_client pool client refused

abbrev pub put_worker : Pool → ℕ → Worker → Pool
put_worker pool i worker = record pool { workers = set pool.workers i worker }

-- Under the lock: the wait begins where the queue is empty.
abbrev pub take_job : Pool → ℕ → List Waiting → Pool
take_job pool i [] = put_worker pool i asleep
take_job pool i (job ∷ queue) = put_worker (record pool { queue = queue }) i (holding job)

unfoldable pub wake : Pool → ℕ → Pool
wake pool i = if pool.stopping then put_worker pool i exited else take_job pool i pool.queue

unfoldable pub check_wait : Pool → ℕ → Waiting → ℕ → Pool
check_wait pool i job now =
    if ltb (pool.limits.queue_wait * 1000000) (now - job.queued_at)
    then put_worker (end_client pool job.client expired) i ready
    else put_worker pool i (serving job.client)

-- `serve_connection` returned, or threw.
abbrev pub finish : Pool → ℕ → ℕ → Bool → Pool
finish pool i client raised =
    put_worker (end_client pool client (if raised then dropped else served)) i ready

-- The next step of a thread that is not asleep, with the clock and with whether the connection throws.
unfoldable pub work_at : Pool → ℕ → ℕ → Bool → Option Worker → Option Pool
unfolding wake check_wait
work_at pool i now raised (some ready) = some (wake pool i)
work_at pool i now raised (some (holding job)) = some (check_wait pool i job now)
work_at pool i now raised (some (serving client)) = some (finish pool i client raised)
work_at pool i now raised _ = none

abbrev pub work : Pool → ℕ → ℕ → Bool → Option Pool
work pool i now raised = work_at pool i now raised (get_elem? pool.workers i)

-- `stop` before its joins: between the lock and `notify_all` no thread falls asleep, since it would see
-- that the pool stops.
abbrev pub stop : Pool → Pool
stop pool = record pool { stopping = true; workers = notify_all pool.workers }

abbrev pub all_exited : List Worker → Bool
all_exited [] = true
all_exited (exited ∷ workers) = all_exited workers
all_exited (_ ∷ workers) = false

abbrev pub unserved : Waiting → ℕ × Fate
unserved waiting = (waiting.client, closed_unserved)

-- The destructor behind its joins, which wait for every thread: the queue's sockets are closed.
unfoldable pub destroy : Pool → Option (List (ℕ × Fate))
destroy pool = if all_exited pool.workers then some (pool.ends ++ map unserved pool.queue) else none
