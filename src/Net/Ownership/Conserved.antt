-- ===== src/Net/Ownership/Conserved.antt =====
-- Ownership of descriptors in src/net/socket.cpp: a descriptor that was handed to a `Socket` is held by
-- one object or was closed once, through every move.
use carafe.Base.{
  ℕ, zero, suc, ◌+◌, false, Option, none, some, List, [], ◌∷◌, ◌≡◌, refl, ◌∙◌, inl, inr, arith,
  ◌==◌, if◌then◌else◌, get_elem?, set, total, total-append, total-set, count, Bool-cases,
  Option-cases,
}
use carafe.Net.Ownership.{
  Slot, living, dead, Store, empty_store, close, construct, move_from, move_construct, take_over,
  unchanged, move_assign, end_life, destroy, Call, constructs, move_constructs, move_assigns,
  destroys, call, run,
}

abbrev pub holds : ℕ → Slot → ℕ
holds d (living (some fd)) = if fd == d then 1 else 0
holds d _ = 0

-- How many living objects hold the descriptor.
abbrev pub owners : ℕ → List Slot → ℕ
owners d slots = total (holds d) slots

-- How often the descriptor was handed to a constructor.
abbrev pub handed : ℕ → List Call → ℕ
handed d [] = 0
handed d (constructs fd ∷ calls) = holds d (living fd) + handed d calls
handed d (c ∷ calls) = handed d calls

get_elem?-set_ne :
    (xs : List Slot) (i j : ℕ) (v : Slot)
    → (i == j) ≡ false
    → get_elem? (set xs j v) i ≡ get_elem? xs i
get_elem?-set_ne [] i j v n = refl
get_elem?-set_ne (x ∷ xs) zero zero v n = absurd (cc)
get_elem?-set_ne (x ∷ xs) zero (suc j) v n = refl
get_elem?-set_ne (x ∷ xs) (suc i) zero v n = refl
get_elem?-set_ne (x ∷ xs) (suc i) (suc j) v n = get_elem?-set_ne xs i j v (ground arith)

count-close :
    (d : ℕ) (fd : Option ℕ) (closed : List ℕ)
    → count d (close fd closed) ≡ holds d (living fd) + count d closed
count-close d none closed = omega arith
count-close d (some fd) closed = refl

-- What is held or closed.
abbrev accounted : ℕ → Store → ℕ
accounted d s = owners d s.slots + count d s.closed

-- The result, if there is one, accounts for `n` more.
abbrev Accounts : ℕ → ℕ → Store → Option Store → Type 0
Accounts d n s none = Unit
Accounts d n s (some t) = accounted d t ≡ n + accounted d s

move_from-Accounts :
    (d other : ℕ) (s : Store) (slot : Option Slot)
    → get_elem? s.slots other ≡ slot
    → Accounts d 0 s (move_from s other slot)
unfolding move_from
move_from-Accounts d other s none e = tt
move_from-Accounts d other s (some dead) e = tt
move_from-Accounts d other s (some (living fd)) e = omega (
  arith,
  total-append (holds d) (set s.slots other (living none)) (living fd ∷ []),
  total-set (holds d) s.slots other (living fd) (living none) e,
)

take_over-Accounts :
    (d this other : ℕ) (s : Store) (a b : Option Slot)
    → (this == other) ≡ false
    → get_elem? s.slots this ≡ a
    → get_elem? s.slots other ≡ b
    → Accounts d 0 s (take_over s this other a b)
unfolding take_over
take_over-Accounts d this other s none b n e f = tt
take_over-Accounts d this other s (some dead) b n e f = tt
take_over-Accounts d this other s (some (living held)) none n e f = tt
take_over-Accounts d this other s (some (living held)) (some dead) n e f = tt
take_over-Accounts d this other s (some (living held)) (some (living fd)) n e f =
    let emptied = set s.slots other (living none) in
    omega (
      arith,
      total-set (holds d) s.slots other (living fd) (living none) f,
      total-set (holds d) emptied this (living held) (living fd)
          (get_elem?-set_ne s.slots this other (living none) n ∙ e),
      count-close d held s.closed,
    )

end_life-Accounts :
    (d this : ℕ) (s : Store) (slot : Option Slot)
    → get_elem? s.slots this ≡ slot
    → Accounts d 0 s (end_life s this slot)
unfolding end_life
end_life-Accounts d this s none e = tt
end_life-Accounts d this s (some dead) e = tt
end_life-Accounts d this s (some (living fd)) e =
    omega (arith, total-set (holds d) s.slots this (living fd) dead e, count-close d fd s.closed)

unchanged-Accounts : (d : ℕ) (s : Store) (slot : Option Slot) → Accounts d 0 s (unchanged s slot)
unfolding unchanged
unchanged-Accounts d s none = tt
unchanged-Accounts d s (some dead) = tt
unchanged-Accounts d s (some (living fd)) = omega arith

call-Accounts : (d : ℕ) (s : Store) (c : Call) → Accounts d (handed d (c ∷ [])) s (call s c)
unfolding call
call-Accounts d s (constructs fd) =
    unfold construct in omega (arith, total-append (holds d) s.slots (living fd ∷ []))
call-Accounts d s (move_constructs other) =
    unfold move_construct in move_from-Accounts d other s (get_elem? s.slots other) refl
call-Accounts d s (move_assigns this other) = elim (Bool-cases (this == other)) [
  | inl same ↦ unfold move_assign in rw same (unchanged-Accounts d s (get_elem? s.slots this))
  | inr differ ↦
      unfold move_assign in
      rw differ (
        take_over-Accounts d this other s (get_elem? s.slots this) (get_elem? s.slots other) differ
          refl refl)
]
call-Accounts d s (destroys this) =
    unfold destroy in end_life-Accounts d this s (get_elem? s.slots this) refl

handed-cons :
    (d : ℕ) (c : Call) (calls : List Call)
    → handed d (c ∷ calls) ≡ handed d (c ∷ []) + handed d calls
handed-cons d (constructs fd) calls = omega arith
handed-cons d (move_constructs other) calls = omega arith
handed-cons d (move_assigns this other) calls = omega arith
handed-cons d (destroys this) calls = omega arith

run-Accounts :
    (d : ℕ) (calls : List Call) (s t : Store)
    → run s calls ≡ some t
    → accounted d t ≡ handed d calls + accounted d s
unfolding run
run-Accounts d [] s t e = let same : s ≡ t = cc in rw same (omega arith)
run-Accounts d (c ∷ calls) s t e = elim (Option-cases (call s c)) [
  | inl n ↦ absurd (cc (rw (n, run) at e))
  | inr (next, f) ↦
      let later = run-Accounts d calls next t (rw (f, run) at e) in
      let first : accounted d next ≡ handed d (c ∷ []) + accounted d s =
        rw f at (call-Accounts d s c) in
      omega (arith, later, first, handed-cons d c calls)
]

-- After any sequence of constructions, moves and destructions that uses no destroyed object, the
-- living objects that hold a descriptor and the times it was closed are together as many as the
-- times it was handed to a constructor.
pub run_conserved :
    (calls : List Call) (s : Store) (d : ℕ)
    → run empty_store calls ≡ some s
    → owners d s.slots + count d s.closed ≡ handed d calls
run_conserved calls s d e = omega (arith, run-Accounts d calls empty_store s e)
