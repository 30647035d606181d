-- ===== src/Server/Pool/Notified.antt =====
-- What the notifications of src/server/pool.cpp do to the threads.
use carafe.Base.{
  ℕ, zero, suc, ◌≤◌, Option, none, some, List, [], ◌∷◌, ◌≡◌, ◌⊎◌, refl, ap, inl, inr, arith, length,
  get_elem?, set, total, total-set,
}
use carafe.Server.Pool.{
  Worker, ready, asleep, holding, serving, exited, wake_first, notify_at, notify_one, notify_all,
}

abbrev pub sleeps : Worker → ℕ
sleeps asleep = 1
sleeps _ = 0

-- A thread that is about to look at the queue.
abbrev pub looks : Worker → ℕ
looks ready = 1
looks _ = 0

pub length-set : (xs : List Worker) (i : ℕ) (worker : Worker) → length (set xs i worker) ≡ length xs
length-set [] i worker = refl
length-set (x ∷ xs) zero worker = refl
length-set (x ∷ xs) (suc i) worker = ap suc (length-set xs i worker)

length-wake_first : (workers : List Worker) → length (wake_first workers) ≡ length workers
length-wake_first [] = refl
length-wake_first (asleep ∷ workers) = refl
length-wake_first (ready ∷ workers) = ap suc (length-wake_first workers)
length-wake_first (holding job ∷ workers) = ap suc (length-wake_first workers)
length-wake_first (serving client ∷ workers) = ap suc (length-wake_first workers)
length-wake_first (exited ∷ workers) = ap suc (length-wake_first workers)

length-notify_at :
    (workers : List Worker) (pick : ℕ) (o : Option Worker)
    → length (notify_at workers pick o) ≡ length workers
length-notify_at workers pick (some asleep) = length-set workers pick ready
length-notify_at workers pick (some ready) = length-wake_first workers
length-notify_at workers pick (some (holding job)) = length-wake_first workers
length-notify_at workers pick (some (serving client)) = length-wake_first workers
length-notify_at workers pick (some exited) = length-wake_first workers
length-notify_at workers pick none = length-wake_first workers

pub length-notify_one :
    (workers : List Worker) (pick : ℕ) → length (notify_one workers pick) ≡ length workers
length-notify_one workers pick = length-notify_at workers pick (get_elem? workers pick)

pub length-notify_all : (workers : List Worker) → length (notify_all workers) ≡ length workers
length-notify_all [] = refl
length-notify_all (asleep ∷ workers) = ap suc (length-notify_all workers)
length-notify_all (ready ∷ workers) = ap suc (length-notify_all workers)
length-notify_all (holding job ∷ workers) = ap suc (length-notify_all workers)
length-notify_all (serving client ∷ workers) = ap suc (length-notify_all workers)
length-notify_all (exited ∷ workers) = ap suc (length-notify_all workers)

-- A count that does not tell a thread that sleeps from one that is ready.
module _ (f : Worker → ℕ) (same : f asleep ≡ f ready) where
  total-wake_first : (workers : List Worker) → total f (wake_first workers) ≡ total f workers
  total-wake_first [] = refl
  total-wake_first (asleep ∷ workers) = omega (arith, same)
  total-wake_first (ready ∷ workers) = omega (arith, total-wake_first workers)
  total-wake_first (holding job ∷ workers) = omega (arith, total-wake_first workers)
  total-wake_first (serving client ∷ workers) = omega (arith, total-wake_first workers)
  total-wake_first (exited ∷ workers) = omega (arith, total-wake_first workers)

  total-notify_at :
      (workers : List Worker) (pick : ℕ) (o : Option Worker)
      → get_elem? workers pick ≡ o
      → total f (notify_at workers pick o) ≡ total f workers
  total-notify_at workers pick (some asleep) e =
      omega (arith, same, total-set f workers pick asleep ready e)
  total-notify_at workers pick (some ready) e = total-wake_first workers
  total-notify_at workers pick (some (holding job)) e = total-wake_first workers
  total-notify_at workers pick (some (serving client)) e = total-wake_first workers
  total-notify_at workers pick (some exited) e = total-wake_first workers
  total-notify_at workers pick none e = total-wake_first workers

  pub total-notify_one :
      (workers : List Worker) (pick : ℕ) → total f (notify_one workers pick) ≡ total f workers
  total-notify_one workers pick = total-notify_at workers pick (get_elem? workers pick) refl

  pub total-notify_all : (workers : List Worker) → total f (notify_all workers) ≡ total f workers
  total-notify_all [] = refl
  total-notify_all (asleep ∷ workers) = omega (arith, same, total-notify_all workers)
  total-notify_all (ready ∷ workers) = omega (arith, total-notify_all workers)
  total-notify_all (holding job ∷ workers) = omega (arith, total-notify_all workers)
  total-notify_all (serving client ∷ workers) = omega (arith, total-notify_all workers)
  total-notify_all (exited ∷ workers) = omega (arith, total-notify_all workers)

pub sleeps-notify_all : (workers : List Worker) → total sleeps (notify_all workers) ≡ 0
sleeps-notify_all [] = refl
sleeps-notify_all (asleep ∷ workers) = omega (arith, sleeps-notify_all workers)
sleeps-notify_all (ready ∷ workers) = omega (arith, sleeps-notify_all workers)
sleeps-notify_all (holding job ∷ workers) = omega (arith, sleeps-notify_all workers)
sleeps-notify_all (serving client ∷ workers) = omega (arith, sleeps-notify_all workers)
sleeps-notify_all (exited ∷ workers) = omega (arith, sleeps-notify_all workers)

-- One more thread looks, unless none was asleep.
abbrev pub Wakes : List Worker → List Worker → Type 0
Wakes before after =
    ((total sleeps before ≡ 0) × (total sleeps after ≡ 0))
    ⊎ ((total looks after ≡ suc (total looks before)) × (1 ≤ total sleeps before))

wake_first-Wakes : (workers : List Worker) → Wakes workers (wake_first workers)
wake_first-Wakes [] = inl (refl, refl)
wake_first-Wakes (asleep ∷ workers) = inr (omega arith, omega arith)
wake_first-Wakes (ready ∷ workers) = ground (arith, wake_first-Wakes workers)
wake_first-Wakes (holding job ∷ workers) = ground (arith, wake_first-Wakes workers)
wake_first-Wakes (serving client ∷ workers) = ground (arith, wake_first-Wakes workers)
wake_first-Wakes (exited ∷ workers) = ground (arith, wake_first-Wakes workers)

notify_at-Wakes :
    (workers : List Worker) (pick : ℕ) (o : Option Worker)
    → get_elem? workers pick ≡ o
    → Wakes workers (notify_at workers pick o)
notify_at-Wakes workers pick (some asleep) e = inr (
  omega (arith, total-set looks workers pick asleep ready e),
  omega (arith, total-set sleeps workers pick asleep ready e),
)
notify_at-Wakes workers pick (some ready) e = wake_first-Wakes workers
notify_at-Wakes workers pick (some (holding job)) e = wake_first-Wakes workers
notify_at-Wakes workers pick (some (serving client)) e = wake_first-Wakes workers
notify_at-Wakes workers pick (some exited) e = wake_first-Wakes workers
notify_at-Wakes workers pick none e = wake_first-Wakes workers

pub notify_one-Wakes : (workers : List Worker) (pick : ℕ) → Wakes workers (notify_one workers pick)
notify_one-Wakes workers pick = notify_at-Wakes workers pick (get_elem? workers pick) refl
