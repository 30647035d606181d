-- ===== src/Http/FieldList.antt =====
-- src/http/field_list.hpp: the elements of a comma-separated field value. The offset `pos` is modelled
-- by the bytes from it on.
pub mod Split
mod Tests
use carafe.Base.{
  ℕ, zero, suc, Bool, ◌||◌, Option, none, some, List, [], ◌∷◌, ◌==◌, if◌then◌else◌, Bytes, length,
}

abbrev pub is_blank : ℕ → Bool
is_blank c = c == b' ' || c == b'\t'

-- `remove_prefix(1)` while the front is blank.
unfoldable pub trim_front : Bytes → Bytes
trim_front [] = []
trim_front (c ∷ element) = if is_blank c then trim_front element else c ∷ element

-- `remove_suffix(1)` while the back is blank.
unfoldable pub trim_back : Bytes → Bytes
trim_back [] = []
trim_back (c ∷ element) = elim (trim_back element) [
  | [] ↦ if is_blank c then [] else c ∷ []
  | d ∷ rest ↦ c ∷ d ∷ rest
]

abbrev pub trim : Bytes → Bytes
trim element = trim_back (trim_front element)

-- `value.find(',', pos)`: the bytes before the next comma, and those behind it.
unfoldable pub cut_comma : Bytes → Bytes × Bytes
cut_comma [] = ([], [])
cut_comma (c ∷ value) =
    let (element, rest) = cut_comma value in if c == b',' then ([], value) else (c ∷ element, rest)

-- One more round than there are bytes is enough: each round passes at least one.
unfoldable pub next_element : ℕ → Bytes → Option (Bytes × Bytes)
unfolding cut_comma trim_front trim_back
next_element zero value = none
next_element (suc rounds) [] = none
next_element (suc rounds) (c ∷ value) =
    let (element, rest) = cut_comma (c ∷ value) in
    elim (trim element) [ [] ↦ next_element rounds rest | d ∷ trimmed ↦ some (d ∷ trimmed, rest) ]

unfoldable pub next_list_element : Bytes → Option (Bytes × Bytes)
unfolding next_element
next_list_element value = next_element (suc (length value)) value

collect : ℕ → Bytes → List Bytes
collect zero value = []
collect (suc rounds) value = elim (next_list_element value) [
  | none ↦ []
  | some (element, rest) ↦ element ∷ collect rounds rest
]

-- What a caller meets that loops until it gets nothing.
unfoldable pub list_elements : Bytes → List Bytes
unfolding collect next_list_element
list_elements value = collect (suc (length value)) value
