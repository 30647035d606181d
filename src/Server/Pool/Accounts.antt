-- ===== src/Server/Pool/Accounts.antt =====
-- Where a client of src/server/pool.cpp can be: in the queue, with a thread, or closed.
use carafe.Base.{
  ℕ, zero, suc, ◌+◌, ◌≤◌, Bool, true, false, List, [], ◌∷◌, ◌++◌, ◌≡◌, refl, ap, arith, ◌==◌,
  if◌then◌else◌, length, total,
}
use carafe.Server.Pool.{Waiting, Worker, holding, serving, Fate, Pool, start_workers}

abbrev pub is_client : ℕ → ℕ → ℕ
is_client client other = if other == client then 1 else 0

abbrev pub waits : ℕ → Waiting → ℕ
waits client job = is_client client job.client

abbrev pub works_on : ℕ → Worker → ℕ
works_on client (holding job) = is_client client job.client
works_on client (serving other) = is_client client other
works_on client _ = 0

abbrev pub ended : ℕ → ℕ × Fate → ℕ
ended client end = is_client client end.0

abbrev pub clients : List Waiting → List ℕ
clients [] = []
clients (job ∷ queue) = job.client ∷ clients queue

-- How often a client is in the queue, with a thread, or closed.
abbrev pub accounted : ℕ → Pool → ℕ
accounted client pool =
    total (waits client) pool.queue
    + total (works_on client) pool.workers
    + total (ended client) pool.ends

pub length-start_workers : (n : ℕ) (started : List Bool) → length (start_workers n started) ≤ n
length-start_workers zero started = omega arith
length-start_workers (suc n) [] = omega arith
length-start_workers (suc n) (true ∷ started) = omega (arith, length-start_workers n started)
length-start_workers (suc n) (false ∷ started) = omega arith

pub idle-start_workers :
    (client n : ℕ) (started : List Bool) → total (works_on client) (start_workers n started) ≡ 0
idle-start_workers client zero started = refl
idle-start_workers client (suc n) [] = refl
idle-start_workers client (suc n) (true ∷ started) =
    omega (arith, idle-start_workers client n started)
idle-start_workers client (suc n) (false ∷ started) = refl

pub clients-append : (xs ys : List Waiting) → clients (xs ++ ys) ≡ clients xs ++ clients ys
clients-append [] ys = refl
clients-append (x ∷ xs) ys = ap (◌∷◌ x.client) (clients-append xs ys)
