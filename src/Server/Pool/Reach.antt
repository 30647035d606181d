-- ===== src/Server/Pool/Reach.antt =====
-- The pools of src/server/pool.cpp that calls and threads can come to, in any order.
use carafe.Base.{ℕ, Bool, Option, some, List, [], ◌∷◌, ◌++◌, ◌≡◌, if◌then◌else◌, get_elem?}
use carafe.Server.Config.{PoolLimits}
use carafe.Server.Pool.{
  Waiting, Worker, ready, asleep, Pool, construct, admits, submit, put_worker, work, stop,
}

-- What happened so far: the clients that were submitted, those that joined the queue, and those that a
-- thread took from it.
pub record History : Type 0 where
  pub submitted : List ℕ
  pub queued : List ℕ
  pub taken : List ℕ

abbrev pub no_history : History
no_history = record { submitted = []; queued = []; taken = [] }

abbrev pub after_submit : History → Pool → ℕ → Bool → History
after_submit h pool client raised = record h {
  submitted = h.submitted ++ client ∷ [];
  queued = h.queued ++ (if admits pool raised then client ∷ [] else []);
}

abbrev pub head_client : List Waiting → List ℕ
head_client [] = []
head_client (job ∷ queue) = job.client ∷ []

-- Whom the next step of a thread takes from the queue.
abbrev pub takes : Pool → Option Worker → List ℕ
takes pool (some ready) = if pool.stopping then [] else head_client pool.queue
takes pool _ = []

abbrev pub after_work : History → Pool → ℕ → History
after_work h pool i = record h { taken = h.taken ++ takes pool (get_elem? pool.workers i) }

pub data Reached (limits : PoolLimits) : History → Pool → Type 0 where
  constructed : (started : List Bool) → Reached limits no_history (construct limits started)
  submits :
      {h : History} {pool : Pool} (client now : ℕ) (raised : Bool) (pick : ℕ)
      → Reached limits h pool
      → Reached limits (after_submit h pool client raised) (submit pool client now raised pick)
  works :
      {h : History} {pool next : Pool} (i now : ℕ) (raised : Bool)
      → work pool i now raised ≡ some next
      → Reached limits h pool
      → Reached limits (after_work h pool i) next
  stops : {h : History} {pool : Pool} → Reached limits h pool → Reached limits h (stop pool)
  -- A wake-up that no thread asked for.
  rouses :
      {h : History} {pool : Pool} (i : ℕ)
      → get_elem? pool.workers i ≡ some asleep
      → Reached limits h pool
      → Reached limits h (put_worker pool i ready)
