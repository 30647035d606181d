-- ===== src/Http/Headers/Lookup.antt =====
-- Case-insensitive lookup in src/http/headers.cpp: what an added field changes.
use carafe.Base.{
  ◌+◌, Bool, Option, none, some, [], ◌∷◌, map, ◌≡◌, refl, arith, if◌then◌else◌, Bytes, equal,
}
use carafe.Http.Ascii.{ascii_lower, ascii_equals_lowered}
use carafe.Http.Headers.{Headers, HeaderField, get, count, add}

pub equals_lowered : (l t : Bytes) → ascii_equals_lowered l t ≡ equal l (map ascii_lower t)
unfolding ascii_equals_lowered equal
equals_lowered [] [] = refl
equals_lowered [] (c ∷ t) = refl
equals_lowered (d ∷ l) [] = refl
equals_lowered (d ∷ l) (c ∷ t) = ground (arith, equals_lowered l t)

-- Two names that differ in case at most.
abbrev pub same_name : Bytes → Bytes → Bool
same_name a b = equal (map ascii_lower a) (map ascii_lower b)

-- The first field of a name wins.
abbrev pub first_of : Option Bytes → Option Bytes → Option Bytes
first_of none later = later
first_of (some value) later = some value

-- After `add`, `get` gives for each name the value it gave before, and if it gave none, the value
-- of the added field where the names differ in case at most; and `count` counts one field more
-- exactly for those names.
pub get-add :
    (fields : Headers) (field : HeaderField) (name : Bytes)
    → (get (add fields field) name
        ≡ first_of (get fields name) (if same_name field.name name then some field.value else none))
      × (count (add fields field) name
          ≡ count fields name + (if same_name field.name name then 1 else 0))
unfolding get count add
get-add [] field name = let e = equals_lowered (map ascii_lower field.name) name in ground arith
get-add (first ∷ fields) field name = ground (arith, get-add fields field name)
