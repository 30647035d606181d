-- ===== src/Server/Pool/Awake.antt =====
-- No lost wake-up in src/server/pool.cpp: a connection does not wait in the queue while every free thread
-- sleeps.
use carafe.Base.{
  ℕ, zero, suc, ◌-◌, ◌*◌, ◌≤◌, Bool, true, false, Option, none, some, List, [], ◌∷◌, ◌++◌, ◌≡◌, ◌⊎◌,
  refl, subst, inl, inr, arith, ltb, if◌then◌else◌, length, length-append, get_elem?, set, total,
  total-set, Bool-cases,
}
use carafe.Server.Config.{PoolLimits}
use carafe.Server.Pool.{
  Waiting, Worker, ready, asleep, holding, serving, exited, Fate, expired, served, dropped, Pool,
  start_workers, admits, submit, notify_one, put_worker, take_job, wake, check_wait, finish,
  work_at,
}
use carafe.Server.Pool.Notified.{sleeps, looks, Wakes, notify_one-Wakes, sleeps-notify_all}
use carafe.Server.Pool.Reach.{History, Reached, constructed, submits, works, stops, rouses}

-- No thread is asleep, or there are as many threads about to look at the queue as it has connections.
abbrev pub IsAwake : Pool → Type 0
IsAwake pool =
    (total sleeps pool.workers ≡ 0)
    ⊎ ((pool.stopping ≡ false) × (length pool.queue ≤ total looks pool.workers))

admits-runs : (pool : Pool) (raised : Bool) → admits pool raised ≡ true → pool.stopping ≡ false
unfolding admits
admits-runs pool raised e = ground arith

queued-IsAwake :
    (pool : Pool) (job : Waiting) (workers : List Worker)
    → pool.stopping ≡ false
    → IsAwake pool
    → Wakes pool.workers workers
    → IsAwake (record pool { queue = pool.queue ++ job ∷ []; workers = workers })
queued-IsAwake pool job workers s a (inl (before, after)) = inl after
queued-IsAwake pool job workers s (inl none_asleep) (inr (more, some_asleep)) = absurd (omega arith)
queued-IsAwake pool job workers s (inr (runs, enough)) (inr (more, some_asleep)) =
    inr (s, omega (arith, length-append pool.queue (job ∷ [])))

submit-IsAwake :
    (pool : Pool) (client now : ℕ) (raised : Bool) (pick : ℕ)
    → IsAwake pool
    → IsAwake (submit pool client now raised pick)
unfolding submit
submit-IsAwake pool client now raised pick a = elim (Bool-cases (admits pool raised)) [
  | inl e ↦ rw e (
      queued-IsAwake pool (record { client = client; queued_at = now })
        (notify_one pool.workers pick) (admits-runs pool raised e) a
        (notify_one-Wakes pool.workers pick))
  | inr e ↦ rw e a
]

-- A thread that neither falls asleep nor stops looking.
move-IsAwake :
    (pool : Pool) (i : ℕ) (old new : Worker) (ends : List (ℕ × Fate))
    → get_elem? pool.workers i ≡ some old
    → sleeps new ≡ 0
    → looks old ≤ looks new
    → IsAwake pool
    → IsAwake (record pool { workers = set pool.workers i new; ends = ends })
move-IsAwake pool i old new ends e z l (inl none_asleep) =
    inl (omega (arith, total-set sleeps pool.workers i old new e))
move-IsAwake pool i old new ends e z l (inr (runs, enough)) =
    inr (runs, omega (arith, total-set looks pool.workers i old new e))

take_job-IsAwake :
    (pool : Pool) (i : ℕ) (queue : List Waiting)
    → get_elem? pool.workers i ≡ some ready
    → pool.stopping ≡ false
    → pool.queue ≡ queue
    → IsAwake pool
    → IsAwake (take_job pool i queue)
take_job-IsAwake pool i [] e s q a = inr (s, rw q (omega arith))
take_job-IsAwake pool i (job ∷ queue) e s q (inl none_asleep) =
    inl (omega (arith, total-set sleeps pool.workers i ready (holding job) e))
take_job-IsAwake pool i (job ∷ queue) e s q (inr (runs, enough)) =
    inr (s, omega (arith, total-set looks pool.workers i ready (holding job) e, rw q at enough))

exit-IsAwake :
    (pool : Pool) (i : ℕ)
    → get_elem? pool.workers i ≡ some ready
    → pool.stopping ≡ true
    → IsAwake pool
    → IsAwake (put_worker pool i exited)
exit-IsAwake pool i e s (inl none_asleep) =
    inl (omega (arith, total-set sleeps pool.workers i ready exited e))
exit-IsAwake pool i e s (inr (runs, enough)) = absurd (cc)

wake-IsAwake :
    (pool : Pool) (i : ℕ)
    → get_elem? pool.workers i ≡ some ready
    → IsAwake pool
    → IsAwake (wake pool i)
unfolding wake
wake-IsAwake pool i e a = elim (Bool-cases pool.stopping) [
  | inl halts ↦
      let same : put_worker pool i exited ≡ wake pool i = ground arith in
      subst IsAwake same (exit-IsAwake pool i e halts a)
  | inr runs ↦
      let same : take_job pool i pool.queue ≡ wake pool i = ground arith in
      subst IsAwake same (take_job-IsAwake pool i pool.queue e runs refl a)
]

check_wait-IsAwake :
    (pool : Pool) (i now : ℕ) (job : Waiting)
    → get_elem? pool.workers i ≡ some (holding job)
    → IsAwake pool
    → IsAwake (check_wait pool i job now)
unfolding check_wait
check_wait-IsAwake pool i now job e a =
    elim (Bool-cases (ltb (pool.limits.queue_wait * 1000000) (now - job.queued_at))) [
      | inl late ↦ rw late (
          move-IsAwake pool i (holding job) ready (pool.ends ++ (job.client, expired) ∷ []) e refl
            (omega arith) a)
      | inr soon ↦
          rw soon (
            move-IsAwake pool i (holding job) (serving job.client) pool.ends e refl (omega arith) a)
    ]

work_at-IsAwake :
    (pool next : Pool) (i now : ℕ) (raised : Bool) (o : Option Worker)
    → get_elem? pool.workers i ≡ o
    → IsAwake pool
    → work_at pool i now raised o ≡ some next
    → IsAwake next
unfolding work_at
work_at-IsAwake pool next i now raised (some ready) e a f =
    let same : wake pool i ≡ next = cc in subst IsAwake same (wake-IsAwake pool i e a)
work_at-IsAwake pool next i now raised (some (holding job)) e a f =
    let same : check_wait pool i job now ≡ next = cc in
    subst IsAwake same (check_wait-IsAwake pool i now job e a)
work_at-IsAwake pool next i now raised (some (serving client)) e a f =
    let same : finish pool i client raised ≡ next = cc in
    subst IsAwake same (
      move-IsAwake pool i (serving client) ready
        (pool.ends ++ (client, if raised then dropped else served) ∷ []) e refl (omega arith) a)
work_at-IsAwake pool next i now raised (some asleep) e a f = absurd (cc)
work_at-IsAwake pool next i now raised (some exited) e a f = absurd (cc)
work_at-IsAwake pool next i now raised none e a f = absurd (cc)

start_workers-awake : (n : ℕ) (started : List Bool) → total sleeps (start_workers n started) ≡ 0
start_workers-awake zero started = refl
start_workers-awake (suc n) [] = refl
start_workers-awake (suc n) (true ∷ started) = omega (arith, start_workers-awake n started)
start_workers-awake (suc n) (false ∷ started) = refl

-- In each pool that the constructor, `submit`, steps of the threads, spurious wake-ups and `stop`
-- lead to, in any order: no thread is asleep, or the pool is not stopping and at least as many
-- threads are about to look at the queue as it holds connections.
pub Reached-IsAwake :
    (limits : PoolLimits) {h : History} {pool : Pool} → Reached limits h pool → IsAwake pool
Reached-IsAwake limits (constructed started) = inl (start_workers-awake limits.workers started)
Reached-IsAwake limits (submits {h} {pool} client now raised pick r) =
    submit-IsAwake pool client now raised pick (Reached-IsAwake limits r)
Reached-IsAwake limits (works {h} {pool} {next} i now raised e r) =
    work_at-IsAwake pool next i now raised (get_elem? pool.workers i) refl
      (Reached-IsAwake limits r) e
Reached-IsAwake limits (stops {h} {pool} r) = inl (sleeps-notify_all pool.workers)
Reached-IsAwake limits (rouses {h} {pool} i e r) =
    move-IsAwake pool i asleep ready pool.ends e refl (omega arith) (Reached-IsAwake limits r)
