-- ===== src/Server/Pool/Draining.antt =====
-- `stop` of src/server/pool.cpp: its joins come to an end, and no thread takes another job.
use carafe.Base.{
  ℕ, zero, suc, ◌+◌, ◌-◌, ◌*◌, ◌≤◌, Bool, true, false, Option, none, some, List, [], ◌∷◌, ◌≡◌, ◌⊎◌,
  refl, ◌∙◌, inl, inr, arith, ltb, length, get_elem?, total, total-set, Bool-cases, Option-cases,
}
use carafe.Server.Pool.{
  asleep, stop, Waiting, Worker, ready, holding, serving, exited, Pool, put_worker, wake,
  check_wait, finish, work_at, work, all_exited,
}
use carafe.Server.Pool.Notified.{sleeps, sleeps-notify_all, length-notify_all}

-- A step of thread `thread`: the clock, and whether its connection throws.
pub record Move : Type 0 where
  pub thread : ℕ
  pub now : ℕ
  pub raised : Bool

-- Steps of the threads, in any order.
abbrev pub run : Pool → List Move → Option Pool
run pool [] = some pool
run pool (m ∷ moves) = elim (work pool m.thread m.now m.raised) [
  | none ↦ none
  | some next ↦ run next moves
]

abbrev steps_left : Worker → ℕ
steps_left ready = 1
steps_left (holding job) = 3
steps_left (serving client) = 2
steps_left exited = 0
steps_left asleep = 2

abbrev work_left : Pool → ℕ
work_left pool = total steps_left pool.workers

steps_left-le : (workers : List Worker) → total steps_left workers ≤ 3 * length workers
steps_left-le [] = omega arith
steps_left-le (ready ∷ workers) = omega (arith, steps_left-le workers)
steps_left-le (holding job ∷ workers) = omega (arith, steps_left-le workers)
steps_left-le (serving client ∷ workers) = omega (arith, steps_left-le workers)
steps_left-le (asleep ∷ workers) = omega (arith, steps_left-le workers)
steps_left-le (exited ∷ workers) = omega (arith, steps_left-le workers)

record Shrinks (pool next : Pool) : Type 0 where
  stops : next.stopping ≡ true
  awake : total sleeps next.workers ≡ 0
  kept : next.queue ≡ pool.queue
  less : suc (work_left next) ≤ work_left pool

check_wait-Shrinks :
    (pool : Pool) (i now : ℕ) (job : Waiting)
    → pool.stopping ≡ true
    → total sleeps pool.workers ≡ 0
    → get_elem? pool.workers i ≡ some (holding job)
    → Shrinks pool (check_wait pool i job now)
unfolding check_wait
check_wait-Shrinks pool i now job s a e =
    elim (Bool-cases (ltb (pool.limits.queue_wait * 1000000) (now - job.queued_at))) [
      | inl late ↦ rw late (record {
        stops = s;
        awake = omega (arith, a, total-set sleeps pool.workers i (holding job) ready e);
        kept = refl;
        less = omega (arith, total-set steps_left pool.workers i (holding job) ready e);
      })
      | inr soon ↦ rw soon (record {
        stops = s;
        awake =
            omega (arith, a, total-set sleeps pool.workers i (holding job) (serving job.client) e);
        kept = refl;
        less =
            omega (arith, total-set steps_left pool.workers i (holding job) (serving job.client) e);
      })
    ]

work_at-Shrinks :
    (pool next : Pool) (i now : ℕ) (raised : Bool) (o : Option Worker)
    → pool.stopping ≡ true
    → total sleeps pool.workers ≡ 0
    → get_elem? pool.workers i ≡ o
    → work_at pool i now raised o ≡ some next
    → Shrinks pool next
unfolding work_at
work_at-Shrinks pool next i now raised (some ready) s a e f =
    let same : put_worker pool i exited ≡ next = unfold wake in ground arith in
    rw (← same) (record {
      stops = s;
      awake = omega (arith, a, total-set sleeps pool.workers i ready exited e);
      kept = refl;
      less = omega (arith, total-set steps_left pool.workers i ready exited e);
    })
work_at-Shrinks pool next i now raised (some (holding job)) s a e f =
    let same : check_wait pool i job now ≡ next = cc in
    rw (← same) (check_wait-Shrinks pool i now job s a e)
work_at-Shrinks pool next i now raised (some (serving client)) s a e f =
    let same : finish pool i client raised ≡ next = cc in
    rw (← same) (record {
      stops = s;
      awake = omega (arith, a, total-set sleeps pool.workers i (serving client) ready e);
      kept = refl;
      less = omega (arith, total-set steps_left pool.workers i (serving client) ready e);
    })
work_at-Shrinks pool next i now raised (some exited) s a e f = absurd (cc)
work_at-Shrinks pool next i now raised (some asleep) s a e f = absurd (cc)
work_at-Shrinks pool next i now raised none s a e f = absurd (cc)

-- A thread that can move, whatever the clock and its connection do.
abbrev pub CanMove : Pool → ℕ → Type 0
CanMove pool i = (now : ℕ) (raised : Bool) → (next : Pool) × (work pool i now raised ≡ some next)

live_worker :
    (workers : List Worker)
    → total sleeps workers ≡ 0
    → all_exited workers ≡ false
    → (i : ℕ) × (worker : Worker) × (get_elem? workers i ≡ some worker)
      × (sleeps worker ≡ 0)
      × (all_exited (worker ∷ []) ≡ false)
live_worker [] a e = absurd (cc)
live_worker (exited ∷ workers) a e =
    let (i, worker, f, z, g) = live_worker workers (omega (arith, a)) e in (suc i, worker, f, z, g)
live_worker (asleep ∷ workers) a e = absurd (omega (arith, a))
live_worker (ready ∷ workers) a e = (zero, ready, refl, refl, refl)
live_worker (holding job ∷ workers) a e = (zero, holding job, refl, refl, refl)
live_worker (serving client ∷ workers) a e = (zero, serving client, refl, refl, refl)

live_moves :
    (pool : Pool) (i : ℕ) (worker : Worker)
    → pool.stopping ≡ true
    → get_elem? pool.workers i ≡ some worker
    → sleeps worker ≡ 0
    → all_exited (worker ∷ []) ≡ false
    → CanMove pool i
unfolding work_at wake
live_moves pool i ready s e z g now raised =
    (put_worker pool i exited, rw (e, s, work_at, wake) refl)
live_moves pool i (holding job) s e z g now raised =
    (check_wait pool i job now, rw (e, work_at) refl)
live_moves pool i (serving client) s e z g now raised =
    (finish pool i client raised, rw (e, work_at) refl)
live_moves pool i exited s e z g now raised = absurd (cc)
live_moves pool i asleep s e z g now raised = absurd (omega (arith, z))

pub record Drains (pool next : Pool) (moves : List Move) : Type 0 where
  pub bounded : length moves ≤ 3 * length pool.workers
  pub kept : next.queue ≡ pool.queue
  pub moving : (all_exited next.workers ≡ true) ⊎ ((i : ℕ) × CanMove next i)

run-left :
    (pool next : Pool) (moves : List Move)
    → pool.stopping ≡ true
    → total sleeps pool.workers ≡ 0
    → run pool moves ≡ some next
    → (next.stopping ≡ true)
      × (total sleeps next.workers ≡ 0)
      × (next.queue ≡ pool.queue)
      × (length moves + work_left next ≤ work_left pool)
unfolding work_at
run-left pool next [] s a e = let same : pool ≡ next = cc in rw (← same) (s, a, refl, omega arith)
run-left pool next (m ∷ moves) s a e = elim (Option-cases (work pool m.thread m.now m.raised)) [
  | inl n ↦ absurd (cc (rw (n, run) at e))
  | inr (after, f) ↦
      let first =
        work_at-Shrinks pool after m.thread m.now m.raised (get_elem? pool.workers m.thread) s a
          refl f in
      let (t, b, q, l) = run-left after next moves first.stops first.awake (rw (f, run) at e) in
      (t, b, q ∙ first.kept, omega (arith, l, first.less))
]

-- After `stop`, any sequence of steps of the threads has at most three steps for each thread,
-- takes nothing from the queue, and ends where every thread has exited or where some thread can
-- move.
pub run-Drains :
    (pool next : Pool) (moves : List Move)
    → run (stop pool) moves ≡ some next
    → Drains pool next moves
run-Drains pool next moves e =
    let (t, a, q, l) = run-left (stop pool) next moves refl (sleeps-notify_all pool.workers) e in
    record {
      bounded = omega (arith, l, steps_left-le (stop pool).workers, length-notify_all pool.workers);
      kept = q;
      moving = elim (Bool-cases (all_exited next.workers)) [
        | inl gone ↦ inl gone
        | inr there ↦
            let (i, worker, f, z, g) = live_worker next.workers a there in
            inr (i, live_moves next i worker t f z g)
      ];
    }
