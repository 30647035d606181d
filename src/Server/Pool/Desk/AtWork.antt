-- ===== src/Server/Pool/Desk/AtWork.antt =====
-- The bag of the clients that the threads of src/server/pool.cpp serve, or have taken to serve.
use carafe.Base.{
  ℕ, ◌+◌, some, List, [], ◌∷◌, ◌≡◌, refl, sym, ◌∙◌, arith, get_elem?, set, total, total-set, count,
  bag, put, put-bag, bag-eq,
}
use carafe.Server.Pool.{asleep, Worker, ready, holding, serving, exited}
use carafe.Server.Pool.Accounts.{works_on}
use carafe.Server.Pool.Desk.{at_work}

pub count-at_work :
    (c : ℕ) (workers : List Worker) → count c (at_work workers) ≡ total (works_on c) workers
count-at_work c [] = refl
count-at_work c (ready ∷ workers) = omega (arith, count-at_work c workers)
count-at_work c (asleep ∷ workers) = omega (arith, count-at_work c workers)
count-at_work c (holding job ∷ workers) = omega (arith, count-at_work c workers)
count-at_work c (serving client ∷ workers) = omega (arith, count-at_work c workers)
count-at_work c (exited ∷ workers) = omega (arith, count-at_work c workers)

pub same_bag :
    (old new : List Worker)
    → ((c : ℕ) → total (works_on c) old ≡ total (works_on c) new)
    → bag (at_work old) ≡ bag (at_work new)
same_bag old new h =
    bag-eq (at_work old) (at_work new)
      (λ c. omega (arith, h c, count-at_work c old, count-at_work c new))

-- Thread `i` goes from `old` to `new`, and has the same client, or none.
pub moved_bag :
    (workers : List Worker) (i : ℕ) (old new : Worker)
    → get_elem? workers i ≡ some old
    → ((c : ℕ) → works_on c old ≡ works_on c new)
    → bag (at_work workers) ≡ bag (at_work (set workers i new))
moved_bag workers i old new e h =
    same_bag workers (set workers i new)
      (λ c. omega (arith, h c, total-set (works_on c) workers i old new e))

-- Thread `i` takes a client, or gives it back.
pub gained_bag :
    (workers : List Worker) (i : ℕ) (old new : Worker) (client : ℕ)
    → get_elem? workers i ≡ some old
    → ((c : ℕ) → works_on c old + count c (client ∷ []) ≡ works_on c new)
    → put client (bag (at_work workers)) ≡ bag (at_work (set workers i new))
gained_bag workers i old new client e h =
    put-bag client (at_work workers)
    ∙ bag-eq (client ∷ at_work workers) (at_work (set workers i new)) (λ c. omega (
      arith,
      h c,
      total-set (works_on c) workers i old new e,
      count-at_work c workers,
      count-at_work c (set workers i new),
    ))

pub lost_bag :
    (workers : List Worker) (i : ℕ) (old new : Worker) (client : ℕ)
    → get_elem? workers i ≡ some old
    → ((c : ℕ) → works_on c old ≡ works_on c new + count c (client ∷ []))
    → bag (at_work workers) ≡ put client (bag (at_work (set workers i new)))
lost_bag workers i old new client e h =
    bag-eq (at_work workers) (client ∷ at_work (set workers i new)) (λ c. omega (
      arith,
      h c,
      total-set (works_on c) workers i old new e,
      count-at_work c workers,
      count-at_work c (set workers i new),
    ))
    ∙ sym (put-bag client (at_work (set workers i new)))
