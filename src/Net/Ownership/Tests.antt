-- ===== src/Net/Ownership/Tests.antt =====
-- Moves of a `Socket` of src/net/socket.cpp at concrete stores.
use carafe.Base.{count, ◌+◌, none, some, List, [], ◌∷◌, ◌≡◌, refl}
use carafe.Net.Ownership.{
  Store, living, dead, empty_store, Call, constructs, move_constructs, move_assigns, destroys, run,
  construct, move_construct, move_assign, destroy,
}
use carafe.Net.Ownership.Conserved.{owners, handed, run_conserved}

-- One descriptor moves on and over another one, and over itself.
abbrev moves : List Call
moves =
    constructs (some 7)
    ∷ constructs (some 9)
    ∷ move_constructs 0
    ∷ move_assigns 1 2
    ∷ move_assigns 1 1
    ∷ destroys 0
    ∷ destroys 1
    ∷ []

abbrev moved : Store
moved = record { slots = dead ∷ dead ∷ living none ∷ []; closed = 7 ∷ 9 ∷ [] }

moves-moved : run empty_store moves ≡ some moved
unfolding run construct move_construct move_assign destroy
moves-moved = refl

run_conserved_example : owners 7 moved.slots + count 7 moved.closed ≡ handed 7 moves
run_conserved_example = run_conserved moves moved 7 moves-moved
