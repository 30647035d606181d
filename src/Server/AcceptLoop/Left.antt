-- ===== src/Server/AcceptLoop/Left.antt =====
-- The end of `serve_forever` of src/server/serve.cpp: its pool's destructor closes what is left.
use carafe.Base.{
  ℕ, Bool, true, some, List, [], ◌∷◌, ◌++◌, map, ◌≡◌, refl, sym, ap, ◌∙◌, inl, inr, arith, total,
  total-append, count, Bool-cases, Option-cases,
}
use carafe.Server.AcceptLoop.{Round, Serving, serve_forever, leave}
use carafe.Server.AcceptLoop.Accounted.{accepted, run-Reached, accept_rounds-Follows}
use carafe.Server.Config.{PoolLimits}
use carafe.Server.Pool.{
  Waiting, Worker, asleep, ready, holding, serving, exited, Fate, Pool, construct, stop, all_exited,
  unserved, destroy,
}
use carafe.Server.Pool.Draining.{Move, run}
use carafe.Server.Pool.Reach.{History, no_history, Reached, constructed, stops}
use carafe.Server.Pool.Accounts.{waits, works_on, ended, accounted}
use carafe.Server.Pool.Sound.{Reached-IsSound}

total-unserved :
    (client : ℕ) (queue : List Waiting)
    → total (ended client) (map unserved queue) ≡ total (waits client) queue
total-unserved client [] = refl
total-unserved client (job ∷ queue) = omega (arith, total-unserved client queue)

all_exited-idle :
    (client : ℕ) (workers : List Worker)
    → all_exited workers ≡ true
    → total (works_on client) workers ≡ 0
all_exited-idle client [] e = refl
all_exited-idle client (exited ∷ workers) e = omega (arith, all_exited-idle client workers e)
all_exited-idle client (ready ∷ workers) e = absurd (cc)
all_exited-idle client (asleep ∷ workers) e = absurd (cc)
all_exited-idle client (holding job ∷ workers) e = absurd (cc)
all_exited-idle client (serving other ∷ workers) e = absurd (cc)

-- The destructor closes whatever is accounted for.
destroy-accounted :
    (client : ℕ) (pool : Pool) (ends : List (ℕ × Fate))
    → destroy pool ≡ some ends
    → total (ended client) ends ≡ accounted client pool
unfolding destroy
destroy-accounted client pool ends e = elim (Bool-cases (all_exited pool.workers)) [
  | inr there ↦ absurd (cc (rw (there, destroy) at e))
  | inl gone ↦
      let same : pool.ends ++ map unserved pool.queue ≡ ends = cc (rw (gone, destroy) at e) in
      rw (← same) (
        omega (
          arith,
          total-append (ended client) pool.ends (map unserved pool.queue),
          total-unserved client pool.queue,
          all_exited-idle client pool.workers gone,
        ))
]

leave-accounted :
    (limits : PoolLimits) (h : History) (left : Serving) (last : List Move) (ends : List (ℕ × Fate))
    (client : ℕ)
    → Reached limits h left.pool
    → leave left last ≡ some ends
    → total (ended client) ends ≡ count client h.submitted
leave-accounted limits h left last ends client r e =
    elim (Option-cases (run (stop left.pool) last)) [
      | inl n ↦ absurd (cc (rw (n, leave) at e))
      | inr (pool, f) ↦
          let (g, same, reached) = run-Reached limits last (stops r) f in
          let d = destroy-accounted client pool ends (rw (f, leave) at e) in
          d ∙ sym ((Reached-IsSound limits reached).conserved client) ∙ ap (count client) same
    ]

-- Once `serve_forever` has left its pool, each client that it accepted was closed as often as it was
-- accepted.
pub serve_forever-left :
    (limits : PoolLimits) (started : List Bool) (rounds : List Round) (left : Serving)
    (last : List Move) (ends : List (ℕ × Fate)) (client : ℕ)
    → serve_forever limits started rounds ≡ some left
    → leave left last ≡ some ends
    → total (ended client) ends ≡ count client (accepted rounds)
serve_forever-left limits started rounds left last ends client e f =
    let s =
      accept_rounds-Follows limits rounds no_history (construct limits started) 0 left
        (constructed started) e in
    leave-accounted limits s.history left last ends client s.reached f
    ∙ ap (count client) s.submitted
