-- ===== src/Http/Headers.antt =====
-- include/carafe/http/headers.hpp and src/http/headers.cpp: the header fields of a message, in the
-- order of arrival. Names are stored lowercased.
pub mod Lookup
mod Tests
use carafe.Base.{
  ℕ, ◌+◌, Bool, true, false, Option, none, some, List, [], ◌∷◌, ◌++◌, map, if◌then◌else◌, Bytes,
}
use carafe.Http.Ascii.{ascii_lower, ascii_equals_lowered}

pub record HeaderField : Type 0 where
  pub name : Bytes
  pub value : Bytes

-- The vector `fields_`.
abbrev pub Headers : Type 0
Headers = List HeaderField

unfoldable pub add : Headers → HeaderField → Headers
add fields field = fields ++ record field { name = map ascii_lower field.name } ∷ []

unfoldable pub count : Headers → Bytes → ℕ
count [] name = 0
count (field ∷ fields) name =
    let matches = count fields name in
    if ascii_equals_lowered field.name name then matches + 1 else matches

unfoldable pub get : Headers → Bytes → Option Bytes
get [] name = none
get (field ∷ fields) name =
    if ascii_equals_lowered field.name name then some field.value else get fields name

abbrev has_value {ℓ} : {A : Type ℓ} → Option A → Bool
has_value none = false
has_value (some a) = true

unfoldable pub contains : Headers → Bytes → Bool
unfolding get
contains fields name = has_value (get fields name)
