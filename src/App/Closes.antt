-- ===== src/App/Closes.antt =====
-- `App::run` of src/app.cpp as a whole: what it opened is closed when it returns.
use carafe.Base.{
  ℕ, Bool, Option, none, some, List, [], ◌∷◌, ◌≡◌, refl, sym, ap, inl, inr, ◌⊎◌, total, count,
  Bool-cases,
}
use carafe.App.{
  RunError, invalid_limits, invalid_deadlines, bind_failed, accept_failed, valid_pool_limits,
  valid_deadlines, Run, give_up, return_from, after_serving, serve_on, after_listen, run,
}
use carafe.Net.Listener.{Listener, ListenResult, listening, refused, Kernel, gave, listen_on}
use carafe.Net.Listener.Opened.{Opens, listen_on-Opens}
use carafe.Server.AcceptLoop.{Round, Serving, serve_forever, leave}
use carafe.Server.AcceptLoop.Accounted.{accepted}
use carafe.Server.AcceptLoop.Left.{serve_forever-left}
use carafe.Server.Config.{PoolLimits, Deadlines}
use carafe.Server.Pool.{Fate}
use carafe.Server.Pool.Draining.{Move}
use carafe.Server.Pool.Accounts.{ended}

-- The descriptors that were opened before `run` returned with an error.
abbrev pub opened : RunError → ℕ → List ℕ
opened invalid_limits fd = []
opened invalid_deadlines fd = []
opened bind_failed fd = fd ∷ []
opened accept_failed fd = fd ∷ []

-- The clients that were accepted.
abbrev pub arrived : RunError → List Round → List ℕ
arrived accept_failed rounds = accepted rounds
arrived _ rounds = []

pub record Closes (error : RunError) (fd client : ℕ) (rounds : List Round) (r : Run) : Type 0 where
  pub listener : r.closed ≡ opened error fd
  pub clients : total (ended client) r.ends ≡ count client (arrived error rounds)

closed_once :
    {fd : ℕ} {closed : List ℕ}
    → ((◌≡◌ {A = List ℕ} [] (fd ∷ [])) × (closed ≡ []))
      ⊎ ((◌≡◌ {A = List ℕ} [] []) × (closed ≡ fd ∷ []))
    → closed ≡ fd ∷ []
closed_once (inl (a, b)) = absurd (cc)
closed_once (inr (a, b)) = b

held_once :
    {fd n : ℕ} {closed : List ℕ}
    → ((n ∷ [] ≡ fd ∷ []) × (closed ≡ [])) ⊎ ((n ∷ [] ≡ []) × (closed ≡ fd ∷ []))
    → n ≡ fd
held_once (inl (a, b)) = cc
held_once (inr (a, b)) = absurd (cc)

gave_up :
    (error other : RunError) (fd client : ℕ) (rounds : List Round) (closed : List ℕ) (r : Run)
    → closed ≡ opened error fd
    → count client (arrived error rounds) ≡ 0
    → ◌≡◌ {A = Option Run} (some (give_up error closed)) (some r)
    → r.error ≡ some other
    → Closes other fd client rounds r
gave_up error other fd client rounds closed r c n e f =
    let same : give_up error closed ≡ r = cc in
    let which : error ≡ other = cc in
    rw (← same, ← which) (record { listener = c; clients = sym n })

module _ (limits : PoolLimits) (started : List Bool) (rounds : List Round) (last : List Move)
    (fd client : ℕ) where
  return_from-Closes :
      (listener : Listener) (serving : Serving) (o : Option (List (ℕ × Fate))) (r : Run)
      (error : RunError)
      → listener.socket ≡ fd
      → serve_forever limits started rounds ≡ some serving
      → leave serving last ≡ o
      → return_from listener o ≡ some r
      → r.error ≡ some error
      → Closes error fd client rounds r
  return_from-Closes listener serving none r error l s o e f = absurd (cc)
  return_from-Closes listener serving (some ends) r error l s o e f =
      let same : record { error = some accept_failed; closed = listener.socket ∷ []; ends = ends }
          ≡ r =
        cc in
      let which : accept_failed ≡ error = cc in
      rw (← same, ← which)
        (record {
          listener = ap (λ n. n ∷ []) l;
          clients = serve_forever-left limits started rounds serving last ends client s o;
        })

  after_serving-Closes :
      (listener : Listener) (serving : Serving) (stopped : Option ℕ) (r : Run) (error : RunError)
      → listener.socket ≡ fd
      → serve_forever limits started rounds ≡ some serving
      → after_serving listener last serving stopped ≡ some r
      → r.error ≡ some error
      → Closes error fd client rounds r
  after_serving-Closes listener serving none r error l s e f = absurd (cc)
  after_serving-Closes listener serving (some os_error) r error l s e f =
      return_from-Closes listener serving (leave serving last) r error l s refl e f

  serve_on-Closes :
      (listener : Listener) (o : Option Serving) (r : Run) (error : RunError)
      → listener.socket ≡ fd
      → serve_forever limits started rounds ≡ o
      → serve_on last listener o ≡ some r
      → r.error ≡ some error
      → Closes error fd client rounds r
  serve_on-Closes listener none r error l s e f = absurd (cc)
  serve_on-Closes listener (some serving) r error l s e f =
      after_serving-Closes listener serving serving.ended r error l s e f

  after_listen-Closes :
      (kernel : Kernel) (port : ℕ) (l : ListenResult × List ℕ) (r : Run) (error : RunError)
      → Opens kernel port fd l
      → after_listen limits started rounds last l ≡ some r
      → r.error ≡ some error
      → Closes error fd client rounds r
  after_listen-Closes kernel port (refused why os_error, closed) r error o e f =
      gave_up bind_failed error fd client rounds closed r (closed_once o.once) refl e f
  after_listen-Closes kernel port (listening listener, closed) r error o e f =
      serve_on-Closes listener (serve_forever limits started rounds) r error (held_once o.once) refl
        e f

-- If `socket` gives a descriptor and `run` returns with an error, then the descriptors it has
-- closed are that one where it came to `listen_on`, and none where the limits or the deadlines
-- were refused; and each client was closed exactly as often as the accept loop had accepted it.
pub run-Closes :
    (kernel : Kernel) (port : ℕ) (limits : PoolLimits) (deadlines : Deadlines) (started : List Bool)
    (rounds : List Round) (last : List Move) (r : Run) (error : RunError) (fd client : ℕ)
    → kernel.socket ≡ gave fd
    → run kernel port limits deadlines started rounds last ≡ some r
    → r.error ≡ some error
    → Closes error fd client rounds r
unfolding run
run-Closes kernel port limits deadlines started rounds last r error fd client k e f =
    elim (Bool-cases (valid_pool_limits limits)) [
      | inr bad ↦
          gave_up invalid_limits error fd client rounds [] r refl refl (rw (bad, run) at e) f
      | inl good ↦ elim (Bool-cases (valid_deadlines deadlines)) [
        | inr bad ↦
            gave_up invalid_deadlines error fd client rounds [] r refl refl
              (rw (good, bad, run) at e) f
        | inl fine ↦
            after_listen-Closes limits started rounds last fd client kernel port
              (listen_on kernel port) r error (listen_on-Opens kernel port fd k)
              (rw (good, fine, run) at e) f
      ]
    ]
