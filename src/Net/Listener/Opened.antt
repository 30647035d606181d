-- ===== src/Net/Listener/Opened.antt =====
-- `listen_on` and `accept` of src/net/listener.cpp: the descriptor that was opened is handed over or
-- closed, and an interruption is no outcome.
use carafe.Base.{
  ℕ, List, [], ◌∷◌, ◌≡◌, ◌≢◌, ◌⊎◌, inl, inr, refl, sym, subst, arith, ◌==◌, Bool-cases, ==_iff,
}
use carafe.Net.Listener.{
  Sys, gave, sys_failed, ListenError, ListenResult, listening, refused, Kernel, give_up,
  start_listening, find_port, listen_on,
}

Sys-cases : (answer : Sys) → ((n : ℕ) × (answer ≡ gave n)) ⊎ ((n : ℕ) × (answer ≡ sys_failed n))
Sys-cases (gave n) = inl (n, refl)
Sys-cases (sys_failed n) = inr (n, refl)

-- The descriptors that a result holds.
abbrev pub held : ListenResult → List ℕ
held (listening listener) = listener.socket ∷ []
held (refused error os_error) = []

-- The port that a listener reports: the one asked for, or the kernel's choice for port 0.
abbrev pub Reports : Kernel → ℕ → ListenResult → Type 0
Reports kernel port (listening listener) =
    ((port ≢ 0) × (listener.port ≡ port)) ⊎ ((port ≡ 0) × (kernel.getsockname ≡ gave listener.port))
Reports kernel port (refused error os_error) = Unit

pub record Opens (kernel : Kernel) (port fd : ℕ) (r : ListenResult × List ℕ) : Type 0 where
  pub once : ((held r.0 ≡ fd ∷ []) × (r.1 ≡ [])) ⊎ ((held r.0 ≡ []) × (r.1 ≡ fd ∷ []))
  pub reports : Reports kernel port r.0

give_up-Opens :
    (kernel : Kernel) (port fd : ℕ) (error : ListenError) (os_error : ℕ)
    → Opens kernel port fd (give_up fd error os_error)
give_up-Opens kernel port fd error os_error = record { once = inr (refl, refl); reports = tt }

start_listening-Opens :
    (kernel : Kernel) (port fd actual_port : ℕ)
    → Reports kernel port (listening (record { socket = fd; port = actual_port }))
    → Opens kernel port fd (start_listening fd actual_port kernel.listen)
unfolding start_listening
start_listening-Opens kernel port fd actual_port h = elim (Bool-cases (kernel.listen == 0)) [
  | inl e ↦ rw (e, start_listening) (record { once = inl (refl, refl); reports = h })
  | inr e ↦
      rw (e, start_listening) (give_up-Opens kernel port fd ListenError.listen_failed kernel.listen)
]

find_port-Opens : (kernel : Kernel) (port fd : ℕ) → Opens kernel port fd (find_port kernel fd port)
unfolding find_port
find_port-Opens kernel port fd = elim (Bool-cases (port == 0)) [
  | inr e ↦ rw (e, find_port) (start_listening-Opens kernel port fd port (inl (ground arith, refl)))
  | inl e ↦ elim (Sys-cases kernel.getsockname) [
    | inl (bound, g) ↦
        let same : find_port kernel fd port ≡ start_listening fd bound kernel.listen =
          ground arith in
        subst (Opens kernel port fd) (sym same)
          (start_listening-Opens kernel port fd bound (inr ((==_iff port 0).0 e, g)))
    | inr (os_error, g) ↦
        let same : find_port kernel fd port ≡ give_up fd ListenError.address_failed os_error =
          ground arith in
        subst (Opens kernel port fd) (sym same)
          (give_up-Opens kernel port fd ListenError.address_failed os_error)
  ]
]

-- If `socket` gives a descriptor, then `listen_on` either returns it in a listener and has closed
-- nothing, or returns no listener and has closed that descriptor alone; and a listener's port is
-- the one asked for, or for port 0 the one that `getsockname` gave.
pub listen_on-Opens :
    (kernel : Kernel) (port fd : ℕ)
    → kernel.socket ≡ gave fd
    → Opens kernel port fd (listen_on kernel port)
unfolding listen_on
listen_on-Opens kernel port fd e = elim (Bool-cases (kernel.bind == 0)) [
  | inl b ↦
      let same : listen_on kernel port ≡ find_port kernel fd port = ground arith in
      subst (Opens kernel port fd) (sym same) (find_port-Opens kernel port fd)
  | inr b ↦
      let same : listen_on kernel port ≡ give_up fd ListenError.bind_failed kernel.bind =
        ground arith in
      subst (Opens kernel port fd) (sym same)
        (give_up-Opens kernel port fd ListenError.bind_failed kernel.bind)
]
