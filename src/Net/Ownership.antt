-- ===== src/Net/Ownership.antt =====
-- src/net/socket.hpp and src/net/socket.cpp: `Socket` as the owner of a descriptor. Objects stand in a
-- store by their place, so that a move can name one object twice.
mod Conserved
mod Tests
use carafe.Base.{
  ℕ, ◌+◌, Bool, true, false, Option, none, some, List, [], ◌∷◌, ◌++◌, ◌==◌, if◌then◌else◌,
  get_elem?, set,
}

-- A living object with its `fd_`, where `none` is -1; a dead one was destroyed.
pub data Slot : Type 0 where
  living : Option ℕ → Slot
  dead : Slot

-- The objects, and the descriptors that were given to `close`, the last one first.
pub record Store : Type 0 where
  pub slots : List Slot
  pub closed : List ℕ

abbrev pub empty_store : Store
empty_store = record { slots = []; closed = [] }

-- `if (fd_ != -1) ::close(fd_)`
abbrev pub close : Option ℕ → List ℕ → List ℕ
close none closed = closed
close (some fd) closed = fd ∷ closed

abbrev pub valid : Option ℕ → Bool
valid none = false
valid (some fd) = true

-- `explicit Socket(int fd)`
unfoldable pub construct : Store → Option ℕ → Store
construct store fd = record store { slots = store.slots ++ living fd ∷ [] }

-- `Socket(Socket&& other)`: `std::exchange(other.fd_, -1)`.
move_from : Store → ℕ → Option Slot → Option Store
move_from store other (some (living fd)) =
    some (record store { slots = set store.slots other (living none) ++ living fd ∷ [] })
move_from store other _ = none

unfoldable pub move_construct : Store → ℕ → Option Store
unfolding move_from
move_construct store other = move_from store other (get_elem? store.slots other)

-- `operator=(Socket&& other)` behind its guard: close what is held, then take.
take_over : Store → ℕ → ℕ → Option Slot → Option Slot → Option Store
take_over store this other (some (living held)) (some (living fd)) = some (record {
  slots = set (set store.slots other (living none)) this (living fd);
  closed = close held store.closed;
})
take_over store this other _ _ = none

-- An object that was destroyed is used by no call: `none`.
unchanged : Store → Option Slot → Option Store
unchanged store (some (living fd)) = some store
unchanged store _ = none

unfoldable pub move_assign : Store → ℕ → ℕ → Option Store
unfolding take_over unchanged
move_assign store this other =
    if this == other
    then unchanged store (get_elem? store.slots this)
    else take_over store this other (get_elem? store.slots this) (get_elem? store.slots other)

end_life : Store → ℕ → Option Slot → Option Store
end_life store this (some (living fd)) =
    some (record { slots = set store.slots this dead; closed = close fd store.closed })
end_life store this _ = none

-- `~Socket()`
unfoldable pub destroy : Store → ℕ → Option Store
unfolding end_life
destroy store this = end_life store this (get_elem? store.slots this)

pub data Call : Type 0 where
  constructs : Option ℕ → Call
  move_constructs : ℕ → Call
  move_assigns : ℕ → ℕ → Call
  destroys : ℕ → Call

unfoldable pub call : Store → Call → Option Store
call store (constructs fd) = some (construct store fd)
call store (move_constructs other) = move_construct store other
call store (move_assigns this other) = move_assign store this other
call store (destroys this) = destroy store this

-- Calls one after the other; `none` if one of them uses a destroyed object.
unfoldable pub run : Store → List Call → Option Store
unfolding call
run store [] = some store
run store (c ∷ calls) = elim (call store c) [ none ↦ none | some next ↦ run next calls ]
