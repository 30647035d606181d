-- ===== src/Server/Pool/Desk/Refined.antt =====
-- Whatever the threads of src/server/pool.cpp do, the pool behaves as the desk.
use carafe.Base.{
  ℕ, ◌-◌, ◌*◌, ◌<◌, Bool, true, false, Option, none, some, List, [], ◌∷◌, ◌++◌, ◌≡◌, refl, sym, ap,
  subst, inl, inr, arith, ltb, length, get_elem?, set, count, bag, Bool-cases,
}
use carafe.Server.Config.{PoolLimits}
use carafe.Server.Pool.{
  asleep, Waiting, Worker, ready, holding, serving, exited, Fate, expired, dropped, served, Pool,
  construct, start_workers, notify_one, notify_all, admits, submit, put_worker, take_job, wake,
  check_wait, finish, work_at,
}
use carafe.Server.Pool.Accounts.{works_on, clients, clients-append, idle-start_workers}
use carafe.Server.Pool.Desk.{
  new_desk, EndsService, Behaves, opens, joins, turns_away, begins, finishes, halts, at_work,
  desk_of,
}
use carafe.Server.Pool.Notified.{total-notify_one, total-notify_all}
use carafe.Server.Pool.Reach.{rouses, History, Reached, constructed, submits, works, stops}
use carafe.Server.Pool.Sound.{Reached-IsSound}
use carafe.Server.Pool.Desk.AtWork.{same_bag, moved_bag, gained_bag, lost_bag}

length-clients : (queue : List Waiting) → length (clients queue) ≡ length queue
length-clients [] = refl
length-clients (job ∷ queue) = omega (arith, length-clients queue)

admits-open :
    (pool : Pool) (raised : Bool)
    → admits pool raised ≡ true
    → (pool.stopping ≡ false) × (length pool.queue < pool.limits.queued)
unfolding admits
admits-open pool raised e = ground arith

module _ (room : ℕ) (came : List ℕ) (pool : Pool) (b : Behaves room came (desk_of pool)) where
  -- A change that does not show.
  unseen :
      (workers : List Worker)
      → bag (at_work pool.workers) ≡ bag (at_work workers)
      → Behaves room came (desk_of (record pool { workers = workers }))
  unseen workers e = subst (λ x. Behaves room came (record (desk_of pool) { busy = x })) e b

  finished :
      (i client : ℕ) (old : Worker) (fate : Fate)
      → EndsService fate
      → get_elem? pool.workers i ≡ some old
      → ((c : ℕ) → works_on c old ≡ count c (client ∷ []))
      → Behaves room came (
          desk_of (record pool {
            workers = set pool.workers i ready;
            ends = pool.ends ++ (client, fate) ∷ [];
          }))
  finished i client old fate f e h =
      finishes client (bag (at_work (set pool.workers i ready))) fate f
        (lost_bag pool.workers i old ready client e (λ c. omega (arith, h c))) b

  submit-Behaves :
      (client now : ℕ) (raised : Bool) (pick : ℕ)
      → pool.limits.queued ≡ room
      → Behaves room (came ++ client ∷ []) (desk_of (submit pool client now raised pick))
  unfolding submit
  submit-Behaves client now raised pick l = elim (Bool-cases (admits pool raised)) [
    | inr full ↦ rw full (turns_away client b)
    | inl has_room ↦
        let job : Waiting = record { client = client; queued_at = now } in
        let (runs, fits) = admits-open pool raised has_room in
        rw has_room (
          subst
            (λ x.
              Behaves room (came ++ client ∷ [])
                (record (desk_of pool) { waiting = clients (pool.queue ++ job ∷ []); busy = x }))
            (same_bag pool.workers (notify_one pool.workers pick)
              (λ c. sym (total-notify_one (works_on c) refl pool.workers pick)))
            (subst (λ w. Behaves room (came ++ client ∷ []) (record (desk_of pool) { waiting = w }))
              (sym (clients-append pool.queue (job ∷ [])))
              (joins client runs (omega (arith, fits, l, length-clients pool.queue)) b)))
  ]

  take_job-Behaves :
      (i : ℕ) (queue : List Waiting)
      → get_elem? pool.workers i ≡ some ready
      → pool.queue ≡ queue
      → pool.stopping ≡ false
      → Behaves room came (desk_of (take_job pool i queue))
  take_job-Behaves i [] e q runs =
      unseen (set pool.workers i asleep) (moved_bag pool.workers i ready asleep e (λ c. refl))
  take_job-Behaves i (job ∷ queue) e q runs =
      subst (λ x. Behaves room came (record (desk_of pool) { waiting = clients queue; busy = x }))
        (gained_bag pool.workers i ready (holding job) job.client e (λ c. omega arith))
        (begins job.client (clients queue) runs (ap clients q) b)

  wake-Behaves :
      (i : ℕ) → get_elem? pool.workers i ≡ some ready → Behaves room came (desk_of (wake pool i))
  unfolding wake
  wake-Behaves i e = elim (Bool-cases pool.stopping) [
    | inl halted ↦
        let same : put_worker pool i exited ≡ wake pool i = ground arith in
        subst (λ (p : Pool). Behaves room came (desk_of p)) same
          (unseen (set pool.workers i exited) (moved_bag pool.workers i ready exited e (λ c. refl)))
    | inr runs ↦
        let same : take_job pool i pool.queue ≡ wake pool i = ground arith in
        subst (λ (p : Pool). Behaves room came (desk_of p)) same
          (take_job-Behaves i pool.queue e refl runs)
  ]

  check_wait-Behaves :
      (i now : ℕ) (job : Waiting)
      → get_elem? pool.workers i ≡ some (holding job)
      → Behaves room came (desk_of (check_wait pool i job now))
  unfolding check_wait
  check_wait-Behaves i now job e =
      elim (Bool-cases (ltb (pool.limits.queue_wait * 1000000) (now - job.queued_at))) [
        | inl late ↦ rw late (finished i job.client (holding job) expired tt e (λ c. omega arith))
        | inr soon ↦ rw soon (
            unseen (set pool.workers i (serving job.client))
              (moved_bag pool.workers i (holding job) (serving job.client) e (λ c. refl)))
      ]

  finish-Behaves :
      (i client : ℕ) (raised : Bool)
      → get_elem? pool.workers i ≡ some (serving client)
      → Behaves room came (desk_of (finish pool i client raised))
  finish-Behaves i client true e =
      finished i client (serving client) dropped tt e (λ c. omega arith)
  finish-Behaves i client false e =
      finished i client (serving client) served tt e (λ c. omega arith)

  work_at-Behaves :
      (i now : ℕ) (raised : Bool) (o : Option Worker) (next : Pool)
      → get_elem? pool.workers i ≡ o
      → work_at pool i now raised o ≡ some next
      → Behaves room came (desk_of next)
  unfolding work_at
  work_at-Behaves i now raised (some ready) next e f =
      let same : wake pool i ≡ next = cc in
      subst (λ (p : Pool). Behaves room came (desk_of p)) same (wake-Behaves i e)
  work_at-Behaves i now raised (some (holding job)) next e f =
      let same : check_wait pool i job now ≡ next = cc in
      subst (λ (p : Pool). Behaves room came (desk_of p)) same (check_wait-Behaves i now job e)
  work_at-Behaves i now raised (some (serving client)) next e f =
      let same : finish pool i client raised ≡ next = cc in
      subst (λ (p : Pool). Behaves room came (desk_of p)) same (finish-Behaves i client raised e)
  work_at-Behaves i now raised (some exited) next e f = absurd (cc)
  work_at-Behaves i now raised (some asleep) next e f = absurd (cc)
  work_at-Behaves i now raised none next e f = absurd (cc)

idle_bag :
    (limits : PoolLimits) (started : List Bool)
    → bag (at_work (construct limits started).workers) ≡ bag []
idle_bag limits started =
    same_bag (start_workers limits.workers started) []
      (λ c. idle-start_workers c limits.workers started)

-- Each pool that the constructor, `submit`, steps of the threads, spurious wake-ups and `stop`
-- lead to, in any order, seen as a line, a bag of clients at work, and the closed ones, is a desk
-- that can be come to with the submitted clients in their order by these steps: a client joins the
-- end of the line, while it is shorter than `limits.queued` and nothing stops, or is turned away;
-- the first of the line begins, while nothing stops; one at work ends expired, served or dropped;
-- the desk stops.
pub Reached-Behaves :
    (limits : PoolLimits) {h : History} {pool : Pool}
    → Reached limits h pool
    → Behaves limits.queued h.submitted (desk_of pool)
Reached-Behaves limits (constructed started) =
    subst (λ x. Behaves limits.queued [] (record new_desk { busy = x }))
      (sym (idle_bag limits started)) opens
Reached-Behaves limits (submits {h} {pool} client now raised pick r) =
    submit-Behaves limits.queued h.submitted pool (Reached-Behaves limits r) client now raised pick
      (ap (λ (l : PoolLimits). l.queued) (Reached-IsSound limits r).limited)
Reached-Behaves limits (works {h} {pool} {next} i now raised e r) =
    work_at-Behaves limits.queued h.submitted pool (Reached-Behaves limits r) i now raised
      (get_elem? pool.workers i) next refl e
Reached-Behaves limits (stops {h} {pool} r) =
    unseen limits.queued h.submitted (record pool { stopping = true })
      (halts (Reached-Behaves limits r)) (notify_all pool.workers)
      (same_bag pool.workers (notify_all pool.workers)
        (λ c. sym (total-notify_all (works_on c) refl pool.workers)))
Reached-Behaves limits (rouses {h} {pool} i e r) =
    unseen limits.queued h.submitted pool (Reached-Behaves limits r) (set pool.workers i ready)
      (moved_bag pool.workers i asleep ready e (λ c. refl))
