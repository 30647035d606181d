-- ===== src/Server/AcceptLoop/Accounted.antt =====
-- The accept loop of src/server/serve.cpp with its pool: no accepted client is lost, and only the
-- listener's failure ends it.
use carafe.Base.{
  ℕ, Bool, false, Option, none, some, List, [], ◌∷◌, ◌++◌, ◌≡◌, ◌≢◌, refl, sym, ap, subst, ◌∙◌, inl,
  inr, arith, append-nil, append_assoc, count, ◌==◌, Bool-cases, Option-cases,
}
use carafe.Net.Errno.{eintr}
use carafe.Net.Listener.{Sys, gave, sys_failed, accept}
use carafe.Server.AcceptLoop.{Round, Serving, retry, after_accept, accept_rounds, serve_forever}
use carafe.Server.Config.{PoolLimits}
use carafe.Server.Pool.{Pool, construct, submit, work}
use carafe.Server.Pool.Draining.{Move, run}
use carafe.Server.Pool.Reach.{
  History, no_history, after_submit, Reached, constructed, submits, works,
}
use carafe.Server.Pool.Accounts.{accounted}
use carafe.Server.Pool.Sound.{Reached-IsSound}
use carafe.Server.Serve.{
  AcceptRetry, never, immediately, after_a_pause, accept_retry_for, is_one_of, exhausted,
  one_client,
}

abbrev clients_on : List ℕ → AcceptRetry → List ℕ
clients_on later never = []
clients_on later after_a_pause = later
clients_on later immediately = later

-- The clients that the loop accepts, up to where it ends or waits.
abbrev clients_after : List ℕ → Option (Sys × List Sys) → List ℕ
clients_after later none = []
clients_after later (some (gave client, _)) = client ∷ later
clients_after later (some (sys_failed os_error, _)) = clients_on later (accept_retry_for os_error)

abbrev pub accepted : List Round → List ℕ
accepted [] = []
accepted (round ∷ rounds) = clients_after (accepted rounds) (accept round.answers)

-- An error that is no reason to go on.
abbrev pub IsFatal : Option ℕ → Type 0
IsFatal none = Unit
IsFatal (some os_error) =
    (is_one_of os_error exhausted ≡ false)
    × (is_one_of os_error one_client ≡ false)
    × (os_error ≢ eintr)

accept-eintr :
    (answers later : List Sys) (os_error : ℕ)
    → accept answers ≡ some (sys_failed os_error, later)
    → os_error ≢ eintr
unfolding accept
accept-eintr [] later os_error e = absurd (cc)
accept-eintr (gave client ∷ answers) later os_error e = absurd (cc)
accept-eintr (sys_failed n ∷ answers) later os_error e = elim (Bool-cases (n == eintr)) [
  | inl again ↦ accept-eintr answers later os_error (rw (again, accept) at e)
  | inr failed ↦ ground arith
]

never-IsFatal :
    (os_error : ℕ) → os_error ≢ eintr → accept_retry_for os_error ≡ never → IsFatal (some os_error)
unfolding accept_retry_for
never-IsFatal os_error n e = elim (Bool-cases (is_one_of os_error exhausted)) [
  | inl a ↦ absurd (cc (rw (a, accept_retry_for) at e))
  | inr a ↦ elim (Bool-cases (is_one_of os_error one_client)) [
    | inl b ↦ absurd (cc (rw (a, b, accept_retry_for) at e))
    | inr b ↦ (a, b, n)
  ]
]

-- Where steps of the threads lead.
pub run-Reached :
    (limits : PoolLimits) (moves : List Move) {h : History} {pool next : Pool}
    → Reached limits h pool
    → run pool moves ≡ some next
    → (g : History) × (g.submitted ≡ h.submitted) × Reached limits g next
run-Reached limits [] {h} {pool} {next} r e =
    let same : pool ≡ next = cc in (h, refl, subst (Reached limits h) same r)
run-Reached limits (m ∷ moves) {h} {pool} {next} r e =
    elim (Option-cases (work pool m.thread m.now m.raised)) [
      | inl n ↦ absurd (cc (rw (n, run) at e))
      | inr (after, f) ↦
          run-Reached limits moves (works m.thread m.now m.raised f r) (rw (f, run) at e)
    ]

-- A pool that was reached with the clients `new` on top of those of `h`.
pub record Follows (limits : PoolLimits) (h : History) (new : List ℕ) (serving : Serving)
    : Type 0 where
  pub history : History
  pub submitted : history.submitted ≡ h.submitted ++ new
  pub reached : Reached limits history serving.pool
  pub fatal : IsFatal serving.ended

nothing_new :
    (limits : PoolLimits) (h : History) (serving : Serving)
    → Reached limits h serving.pool
    → IsFatal serving.ended
    → Follows limits h [] serving
nothing_new limits h serving r f = record {
  history = h;
  submitted = sym (append-nil h.submitted);
  reached = r;
  fatal = f;
}

module _ (limits : PoolLimits) (rounds : List Round) (again : Pool → ℕ → Option Serving)
    (later : (h : History) (pool : Pool) (paused : ℕ) (serving : Serving)
      → Reached limits h pool
      → again pool paused ≡ some serving
      → Follows limits h (accepted rounds) serving) where
  retry-Follows :
      (h : History) (pool : Pool) (paused os_error : ℕ) (r : AcceptRetry) (serving : Serving)
      → Reached limits h pool
      → os_error ≢ eintr
      → accept_retry_for os_error ≡ r
      → retry (again pool) pool paused os_error r ≡ some serving
      → Follows limits h (clients_on (accepted rounds) r) serving
  retry-Follows h pool paused os_error never serving p n a e =
      let same : record { pool = pool; ended = some os_error; paused = paused } ≡ serving = cc in
      subst (Follows limits h []) same (nothing_new limits h _ p (never-IsFatal os_error n a))
  retry-Follows h pool paused os_error after_a_pause serving p n a e = later h pool _ serving p e
  retry-Follows h pool paused os_error immediately serving p n a e = later h pool _ serving p e

  after_accept-Follows :
      (h : History) (pool : Pool) (paused : ℕ) (round : Round) (o : Option (Sys × List Sys))
      (serving : Serving)
      → Reached limits h pool
      → accept round.answers ≡ o
      → after_accept again pool paused round o ≡ some serving
      → Follows limits h (clients_after (accepted rounds) o) serving
  after_accept-Follows h pool paused round none serving p a e =
      let same : record { pool = pool; ended = none; paused = paused } ≡ serving = cc in
      subst (Follows limits h []) same (nothing_new limits h _ p tt)
  after_accept-Follows h pool paused round (some (sys_failed os_error, left)) serving p a e =
      retry-Follows h pool paused os_error (accept_retry_for os_error) serving p
        (accept-eintr round.answers left os_error a) refl e
  after_accept-Follows h pool paused round (some (gave client, left)) serving p a e =
      let f =
        later (after_submit h pool client round.raised)
          (submit pool client round.now round.raised round.pick) paused serving
          (submits client round.now round.raised round.pick p) e in
      record {
        history = f.history;
        submitted = f.submitted ∙ append_assoc h.submitted (client ∷ []) (accepted rounds);
        reached = f.reached;
        fatal = f.fatal;
      }

pub accept_rounds-Follows :
    (limits : PoolLimits) (rounds : List Round) (h : History) (pool : Pool) (paused : ℕ)
    (serving : Serving)
    → Reached limits h pool
    → accept_rounds rounds pool paused ≡ some serving
    → Follows limits h (accepted rounds) serving
unfolding accept_rounds
accept_rounds-Follows limits [] h pool paused serving p e =
    let same : record { pool = pool; ended = none; paused = paused } ≡ serving = cc in
    subst (Follows limits h []) same (nothing_new limits h _ p tt)
accept_rounds-Follows limits (round ∷ rounds) h pool paused serving p e =
    elim (Option-cases (run pool round.moves)) [
      | inl n ↦ absurd (cc (rw (n, accept_rounds) at e))
      | inr (moved, m) ↦
          let (g, same, r) = run-Reached limits round.moves p m in
          let f =
            after_accept-Follows limits rounds (accept_rounds rounds)
              (accept_rounds-Follows limits rounds) g moved paused round (accept round.answers)
              serving r refl (rw (m, accept_rounds) at e) in
          record {
            history = f.history;
            submitted = f.submitted ∙ ap (λ xs. xs ++ accepted (round ∷ rounds)) same;
            reached = f.reached;
            fatal = f.fatal;
          }
    ]

-- Wherever the accept loop stands, each client is in the queue, with the threads and among the
-- closed of its pool together exactly as often as `accept` gave it; and if the loop has ended,
-- then by an error that is no exhaustion, not one client's, and not EINTR.
pub serve_forever-accounted :
    (limits : PoolLimits) (started : List Bool) (rounds : List Round) (serving : Serving)
    (client : ℕ)
    → serve_forever limits started rounds ≡ some serving
    → (count client (accepted rounds) ≡ accounted client serving.pool) × IsFatal serving.ended
serve_forever-accounted limits started rounds serving client e =
    let f =
      accept_rounds-Follows limits rounds no_history (construct limits started) 0 serving
        (constructed started) e in
    (
      ap (count client) (sym f.submitted) ∙ (Reached-IsSound limits f.reached).conserved client,
      f.fatal,
    )
