-- ===== src/Server/Pool/Sound.antt =====
-- Invariants of the pools that src/server/pool.cpp can come to.
use carafe.Base.{
  ℕ, suc, ◌+◌, ◌-◌, ◌*◌, ◌≤◌, Bool, true, Option, none, some, List, [], ◌∷◌, ◌++◌, ◌≡◌, refl, sym,
  ap, subst, ◌∙◌, inl, inr, arith, ltb, if◌then◌else◌, length, length-append, append-nil,
  append_assoc, get_elem?, set, total, total-append, total-set, count, count-append, Bool-cases,
}
use carafe.Server.Config.{PoolLimits}
use carafe.Server.Pool.{
  asleep, Waiting, Worker, ready, holding, serving, exited, Fate, refused, expired, dropped, served,
  Pool, construct, admits, submit, put_worker, take_job, wake, check_wait, finish, work_at,
}
use carafe.Server.Pool.Accounts.{
  waits, works_on, ended, clients, accounted, length-start_workers, idle-start_workers,
  clients-append,
}
use carafe.Server.Pool.Notified.{
  length-set, length-notify_one, length-notify_all, total-notify_one, total-notify_all,
}
use carafe.Server.Pool.Reach.{
  rouses, History, after_submit, head_client, takes, Reached, constructed, submits, works, stops,
}

pub record IsSound (limits : PoolLimits) (h : History) (pool : Pool) : Type 0 where
  pub limited : pool.limits ≡ limits
  pub fits : length pool.queue ≤ limits.queued
  pub staffed : length pool.workers ≤ limits.workers
  pub in_order : h.queued ≡ h.taken ++ clients pool.queue
  pub conserved : (client : ℕ) → count client h.submitted ≡ accounted client pool

construct-IsSound :
    (limits : PoolLimits) (started : List Bool)
    → IsSound limits (record { submitted = []; queued = []; taken = [] }) (construct limits started)
construct-IsSound limits started = record {
  limited = refl;
  fits = omega arith;
  staffed = length-start_workers limits.workers started;
  in_order = refl;
  conserved = λ client. omega (arith, idle-start_workers client limits.workers started);
}

admits-HasRoom :
    (pool : Pool) (raised : Bool)
    → admits pool raised ≡ true
    → suc (length pool.queue) ≤ pool.limits.queued
unfolding admits
admits-HasRoom pool raised e = ground arith

module _ (limits : PoolLimits) (h : History) (pool : Pool) (s : IsSound limits h pool) where
  submit-IsSound :
      (client now : ℕ) (raised : Bool) (pick : ℕ)
      → IsSound limits (after_submit h pool client raised) (submit pool client now raised pick)
  unfolding submit
  submit-IsSound client now raised pick = elim (Bool-cases (admits pool raised)) [
    | inl e ↦ rw e (record {
      limited = s.limited;
      fits =
          let room : suc (length pool.queue) ≤ limits.queued =
            subst (λ (l : PoolLimits). suc (length pool.queue) ≤ l.queued) s.limited
              (admits-HasRoom pool raised e) in
          omega (
            arith,
            room,
            length-append pool.queue (record { client = client; queued_at = now } ∷ []),
          );
      staffed = omega (arith, s.staffed, length-notify_one pool.workers pick);
      in_order =
          ap (λ xs. xs ++ client ∷ []) s.in_order
          ∙ append_assoc h.taken (clients pool.queue) (client ∷ [])
          ∙ ap (λ xs. h.taken ++ xs)
              (sym (clients-append pool.queue (record { client = client; queued_at = now } ∷ [])));
      conserved = λ c. omega (
        arith,
        s.conserved c,
        total-notify_one (works_on c) refl pool.workers pick,
        count-append c h.submitted (client ∷ []),
        total-append (waits c) pool.queue (record { client = client; queued_at = now } ∷ []),
      );
    })
    | inr e ↦ rw e (record {
      limited = s.limited;
      fits = s.fits;
      staffed = s.staffed;
      in_order = append-nil h.queued ∙ s.in_order;
      conserved = λ c. omega (
        arith,
        s.conserved c,
        count-append c h.submitted (client ∷ []),
        total-append (ended c) pool.ends ((client, refused) ∷ []),
      );
    })
  ]

  -- Thread `i` goes from `old` to `new`.
  advance-IsSound :
      (i : ℕ) (old new : Worker) (taken : List ℕ) (queue : List Waiting) (ends : List (ℕ × Fate))
      → get_elem? pool.workers i ≡ some old
      → length queue ≤ length pool.queue
      → h.taken ++ clients pool.queue ≡ taken ++ clients queue
      → ((c : ℕ)
          → total (waits c) queue + works_on c new + total (ended c) ends
            ≡ total (waits c) pool.queue + works_on c old + total (ended c) pool.ends)
      → IsSound limits
          (record h { taken = taken })
          (record pool { queue = queue; workers = set pool.workers i new; ends = ends })
  advance-IsSound i old new taken queue ends e l o b = record {
    limited = s.limited;
    fits = omega (arith, s.fits, l);
    staffed = omega (arith, s.staffed, length-set pool.workers i new);
    in_order = s.in_order ∙ o;
    conserved =
        λ c. omega (arith, s.conserved c, b c, total-set (works_on c) pool.workers i old new e);
  }

  -- Thread `i` goes from `old` to `new`, and the queue stays.
  advance-queue_kept :
      (i : ℕ) (old new : Worker) (ends : List (ℕ × Fate))
      → get_elem? pool.workers i ≡ some old
      → ((c : ℕ)
          → works_on c new + total (ended c) ends ≡ works_on c old + total (ended c) pool.ends)
      → IsSound limits
          (record h { taken = h.taken ++ [] })
          (record pool { workers = set pool.workers i new; ends = ends })
  advance-queue_kept i old new ends e b =
      advance-IsSound i old new (h.taken ++ []) pool.queue ends e (omega arith)
        (ap (λ xs. xs ++ clients pool.queue) (sym (append-nil h.taken))) (λ c. omega (arith, b c))

  take_job-IsSound :
      (i : ℕ) (queue : List Waiting)
      → get_elem? pool.workers i ≡ some ready
      → pool.queue ≡ queue
      → IsSound limits (record h { taken = h.taken ++ head_client queue }) (take_job pool i queue)
  take_job-IsSound i [] e q = advance-queue_kept i ready asleep pool.ends e (λ c. omega arith)
  take_job-IsSound i (job ∷ queue) e q =
      advance-IsSound i ready (holding job) (h.taken ++ job.client ∷ []) queue pool.ends e
        (rw q (omega arith)) (rw q (sym (append_assoc h.taken (job.client ∷ []) (clients queue))))
        (λ c. rw q (omega arith))

  wake-IsSound :
      (i : ℕ)
      → get_elem? pool.workers i ≡ some ready
      → IsSound limits (record h { taken = h.taken ++ takes pool (some ready) }) (wake pool i)
  unfolding wake
  wake-IsSound i e = elim (Bool-cases pool.stopping) [
    | inr runs ↦
        let same : take_job pool i pool.queue ≡ wake pool i = ground arith in
        let taken : head_client pool.queue ≡ takes pool (some ready) = ground arith in
        subst (λ xs. IsSound limits (record h { taken = h.taken ++ xs }) (wake pool i)) taken
          (subst (IsSound limits (record h { taken = h.taken ++ head_client pool.queue })) same
            (take_job-IsSound i pool.queue e refl))
    | inl halts ↦
        let same : put_worker pool i exited ≡ wake pool i = ground arith in
        let taken : [] ≡ takes pool (some ready) = ground arith in
        subst (λ xs. IsSound limits (record h { taken = h.taken ++ xs }) (wake pool i)) taken
          (subst (IsSound limits (record h { taken = h.taken ++ [] })) same
            (advance-queue_kept i ready exited pool.ends e (λ c. omega arith)))
  ]

  check_wait-IsSound :
      (i now : ℕ) (job : Waiting)
      → get_elem? pool.workers i ≡ some (holding job)
      → IsSound limits (record h { taken = h.taken ++ [] }) (check_wait pool i job now)
  unfolding check_wait
  check_wait-IsSound i now job e =
      elim (Bool-cases (ltb (pool.limits.queue_wait * 1000000) (now - job.queued_at))) [
        | inl late ↦ rw late (
            advance-queue_kept i (holding job) ready (pool.ends ++ (job.client, expired) ∷ []) e
              (λ c. omega (arith, total-append (ended c) pool.ends ((job.client, expired) ∷ []))))
        | inr soon ↦
            rw soon (
              advance-queue_kept i (holding job) (serving job.client) pool.ends e
                (λ c. omega arith))
      ]

  finish-IsSound :
      (i client : ℕ) (raised : Bool)
      → get_elem? pool.workers i ≡ some (serving client)
      → IsSound limits (record h { taken = h.taken ++ [] }) (finish pool i client raised)
  finish-IsSound i client raised e =
      let fate = if raised then dropped else served in
      advance-queue_kept i (serving client) ready (pool.ends ++ (client, fate) ∷ []) e
        (λ c. omega (arith, total-append (ended c) pool.ends ((client, fate) ∷ [])))

  work_at-IsSound :
      (i now : ℕ) (raised : Bool) (o : Option Worker) (next : Pool)
      → get_elem? pool.workers i ≡ o
      → work_at pool i now raised o ≡ some next
      → IsSound limits (record h { taken = h.taken ++ takes pool o }) next
  unfolding work_at
  work_at-IsSound i now raised (some ready) next e f =
      let same : wake pool i ≡ next = cc in
      subst (IsSound limits (record h { taken = h.taken ++ takes pool (some ready) })) same
        (wake-IsSound i e)
  work_at-IsSound i now raised (some (holding job)) next e f =
      let same : check_wait pool i job now ≡ next = cc in
      subst (IsSound limits (record h { taken = h.taken ++ [] })) same
        (check_wait-IsSound i now job e)
  work_at-IsSound i now raised (some (serving client)) next e f =
      let same : finish pool i client raised ≡ next = cc in
      subst (IsSound limits (record h { taken = h.taken ++ [] })) same
        (finish-IsSound i client raised e)
  work_at-IsSound i now raised (some exited) next e f = absurd (cc)
  work_at-IsSound i now raised (some asleep) next e f = absurd (cc)
  work_at-IsSound i now raised none next e f = absurd (cc)

-- In each pool that the constructor, `submit`, steps of the threads, spurious wake-ups and `stop`
-- lead to, in any order: the queue holds at most `limits.queued` connections and there are at most
-- `limits.workers` threads; the clients that joined the queue are those that were taken, in this
-- order, followed by those that wait; and each client occurs in the queue, with the threads and
-- among the closed together exactly as often as it was submitted.
pub Reached-IsSound :
    (limits : PoolLimits) {h : History} {pool : Pool}
    → Reached limits h pool
    → IsSound limits h pool
Reached-IsSound limits (constructed started) = construct-IsSound limits started
Reached-IsSound limits (submits {h} {pool} client now raised pick r) =
    submit-IsSound limits h pool (Reached-IsSound limits r) client now raised pick
Reached-IsSound limits (works {h} {pool} {next} i now raised e r) =
    work_at-IsSound limits h pool (Reached-IsSound limits r) i now raised (get_elem? pool.workers i)
      next refl e
Reached-IsSound limits (stops {h} {pool} r) =
    let s = Reached-IsSound limits r in
    record {
      limited = s.limited;
      fits = s.fits;
      staffed = omega (arith, s.staffed, length-notify_all pool.workers);
      in_order = s.in_order;
      conserved =
          λ c. omega (arith, s.conserved c, total-notify_all (works_on c) refl pool.workers);
    }
Reached-IsSound limits (rouses {h} {pool} i e r) =
    let s = Reached-IsSound limits r in
    advance-IsSound limits h pool s i asleep ready h.taken pool.queue pool.ends e (omega arith) refl
      (λ c. omega arith)
