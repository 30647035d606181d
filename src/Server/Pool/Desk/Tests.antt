-- ===== src/Server/Pool/Desk/Tests.antt =====
-- A run of src/server/pool.cpp seen as a desk.
use carafe.Base.{false, [], ◌∷◌, ◌≡◌, refl, bag, put, put-bag}
use carafe.Server.Pool.{refused}
use carafe.Server.Pool.Desk.{Desk, Behaves, desk_of}
use carafe.Server.Pool.Desk.Refined.{Reached-Behaves}
use carafe.Server.Pool.Tests.{small, busy, busy-Reached}

-- One client is served, and one was turned away.
abbrev serving_one : Desk
serving_one = record {
  waiting = [];
  busy = bag (7 ∷ []);
  closed = (8, refused) ∷ [];
  stopping = false;
}

busy-serving_one : desk_of busy ≡ serving_one
busy-serving_one = refl

put_seven : put 7 (bag []) ≡ serving_one.busy
put_seven = put-bag 7 []

Reached-Behaves_example : Behaves 1 (7 ∷ 8 ∷ []) serving_one
Reached-Behaves_example = Reached-Behaves small busy-Reached
