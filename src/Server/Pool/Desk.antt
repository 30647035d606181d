-- ===== src/Server/Pool/Desk.antt =====
-- What the pool of src/server/pool.cpp promises, without its threads: clients who wait in a line, clients
-- who are being served, in no order, and clients whose connection is closed.
mod AtWork
mod Refined
mod Tests
use carafe.Base.{ℕ, ◌<◌, Bool, true, false, List, [], ◌∷◌, ◌++◌, ◌≡◌, Bag, bag, put, length}
use carafe.Server.Pool.{
  Worker, holding, serving, Fate, refused, expired, served, dropped, closed_unserved, Pool,
}
use carafe.Server.Pool.Accounts.{clients}

pub record Desk : Type 0 where
  pub waiting : List ℕ
  pub busy : Bag
  pub closed : List (ℕ × Fate)
  pub stopping : Bool

abbrev pub new_desk : Desk
new_desk = record { waiting = []; busy = bag []; closed = []; stopping = false }

-- The ends that a client can come to who left the line.
abbrev pub EndsService : Fate → Type 0
EndsService expired = Unit
EndsService served = Unit
EndsService dropped = Unit
EndsService refused = ⊥
EndsService closed_unserved = ⊥

-- The desks that a run can come to, with the clients who came so far, in order.
pub data Behaves (room : ℕ) : List ℕ → Desk → Type 0 where
  opens : Behaves room [] new_desk
  joins :
      {came : List ℕ} {desk : Desk} (client : ℕ)
      → desk.stopping ≡ false
      → length desk.waiting < room
      → Behaves room came desk
      → Behaves room (came ++ client ∷ []) (record desk { waiting = desk.waiting ++ client ∷ [] })
  turns_away :
      {came : List ℕ} {desk : Desk} (client : ℕ)
      → Behaves room came desk
      → Behaves room
          (came ++ client ∷ [])
          (record desk { closed = desk.closed ++ (client, refused) ∷ [] })
  begins :
      {came : List ℕ} {desk : Desk} (client : ℕ) (others : List ℕ)
      → desk.stopping ≡ false
      → desk.waiting ≡ client ∷ others
      → Behaves room came desk
      → Behaves room came (record desk { waiting = others; busy = put client desk.busy })
  finishes :
      {came : List ℕ} {desk : Desk} (client : ℕ) (others : Bag) (fate : Fate)
      → EndsService fate
      → desk.busy ≡ put client others
      → Behaves room came desk
      → Behaves room came
          (record desk { busy = others; closed = desk.closed ++ (client, fate) ∷ [] })
  halts :
      {came : List ℕ} {desk : Desk}
      → Behaves room came desk
      → Behaves room came (record desk { stopping = true })

-- The clients that threads hold or serve.
abbrev pub at_work : List Worker → List ℕ
at_work [] = []
at_work (holding job ∷ workers) = job.client ∷ at_work workers
at_work (serving client ∷ workers) = client ∷ at_work workers
at_work (_ ∷ workers) = at_work workers

-- A pool seen as a desk: which thread has which client is forgotten, and when a client joined.
abbrev pub desk_of : Pool → Desk
desk_of pool = record {
  waiting = clients pool.queue;
  busy = bag (at_work pool.workers);
  closed = pool.ends;
  stopping = pool.stopping;
}
