-- ===== src/Http/FieldList/Split.antt =====
-- `next_list_element` of src/http/field_list.hpp against an independent description: the value is
-- split at every comma, each piece is trimmed, and what is then empty is left out.
use carafe.Base.{
  ℕ, zero, suc, ◌≤◌, ◌<◌, Option, none, some, List, [], ◌∷◌, ◌≡◌, refl, sym, ap, ◌∙◌, arith, ◌==◌,
  if◌then◌else◌, Bytes, length,
}
use carafe.Http.FieldList.{
  trim_front, trim_back, trim, cut_comma, next_element, next_list_element, collect, list_elements,
}

abbrev pub prepend : ℕ → List Bytes → List Bytes
prepend c [] = (c ∷ []) ∷ []
prepend c (piece ∷ pieces) = (c ∷ piece) ∷ pieces

unfoldable pub split : Bytes → List Bytes
split [] = [] ∷ []
split (c ∷ value) = if c == b',' then [] ∷ split value else prepend c (split value)

abbrev pub add : Bytes → List Bytes → List Bytes
add [] pieces = pieces
add (c ∷ piece) pieces = (c ∷ piece) ∷ pieces

unfoldable pub trimmed : List Bytes → List Bytes
trimmed [] = []
trimmed (piece ∷ pieces) = add (trim piece) (trimmed pieces)

-- The pieces behind the first comma.
others : Bytes → List Bytes
others [] = []
others (c ∷ value) = if c == b',' then split value else others value

split-others : (value : Bytes) → split value ≡ (cut_comma value).0 ∷ others value
unfolding split others cut_comma
split-others [] = refl
split-others (c ∷ value) = ground (arith, split-others value)

trimmed-others : (value : Bytes) → trimmed (others value) ≡ trimmed (split (cut_comma value).1)
unfolding trimmed others cut_comma split trim_front trim_back
trimmed-others [] = refl
trimmed-others (c ∷ value) = ground (arith, trimmed-others value)

cut_comma_shorter : (c : ℕ) (value : Bytes) → length (cut_comma (c ∷ value)).1 ≤ length value
unfolding cut_comma
cut_comma_shorter c [] = ground arith
cut_comma_shorter c (d ∷ value) = ground (arith, cut_comma_shorter d value)

trimmed-split :
    (value : Bytes)
    → trimmed (split value) ≡ add (trim (cut_comma value).0) (trimmed (split (cut_comma value).1))
unfolding trimmed
trimmed-split value = rw (split-others value, trimmed-others value) refl

-- What one call of `next_list_element` takes from the pieces.
abbrev Takes : Bytes → Option (Bytes × Bytes) → Type 0
Takes value none = trimmed (split value) ≡ []
Takes value (some (element, rest)) =
    (trimmed (split value) ≡ element ∷ trimmed (split rest)) × (length rest < length value)

skip_piece :
    (value rest : Bytes) (o : Option (Bytes × Bytes))
    → trimmed (split value) ≡ trimmed (split rest)
    → length rest < length value
    → Takes rest o
    → Takes value o
skip_piece value rest none e h t = e ∙ t
skip_piece value rest (some (element, later)) e h (t, shorter) = (e ∙ t, omega (arith, h, shorter))

take_piece :
    (value rest piece : Bytes) (o : Option (Bytes × Bytes))
    → trimmed (split value) ≡ add piece (trimmed (split rest))
    → length rest < length value
    → Takes rest o
    → Takes value (elim piece [ [] ↦ o | d ∷ t ↦ some (d ∷ t, rest) ])
take_piece value rest [] o e h t = skip_piece value rest o e h t
take_piece value rest (d ∷ piece) o e h t = (e, h)

next_element-Takes : (n : ℕ) (value : Bytes) → length value < n → Takes value (next_element n value)
unfolding next_element
next_element-Takes zero value h = absurd (omega arith)
next_element-Takes (suc n) [] h = unfold trimmed split trim_front trim_back in refl
next_element-Takes (suc n) (c ∷ value) h =
    let (piece, rest) = cut_comma (c ∷ value) in
    let shorter : length rest < length (c ∷ value) = omega (arith, cut_comma_shorter c value) in
    take_piece (c ∷ value) rest (trim piece) (next_element n rest) (trimmed-split (c ∷ value))
      shorter (next_element-Takes n rest (omega (arith, shorter, h)))

collect_taken :
    (n : ℕ) (value : Bytes) (o : Option (Bytes × Bytes))
    → ((rest : Bytes) → length rest < length value → collect n rest ≡ trimmed (split rest))
    → Takes value o
    → elim o [ none ↦ [] | some (element, rest) ↦ element ∷ collect n rest ] ≡ trimmed (split value)
collect_taken n value none later t = sym t
collect_taken n value (some (element, rest)) later (t, shorter) =
    ap (◌∷◌ element) (later rest shorter) ∙ sym t

collect_lem : (n : ℕ) (value : Bytes) → length value < n → collect n value ≡ trimmed (split value)
unfolding collect next_list_element
collect_lem zero value h = absurd (omega arith)
collect_lem (suc n) value h =
    collect_taken n value (next_element (suc (length value)) value)
      (λ rest shorter. collect_lem n rest (omega (arith, h, shorter)))
      (next_element-Takes (suc (length value)) value (omega arith))

-- Calling `next_list_element` until it finds nothing gives the pieces of the value between its
-- commas, in order, with the blanks on both sides cut off, and without the pieces that are then
-- empty.
pub list_elements-split : (value : Bytes) → list_elements value ≡ trimmed (split value)
unfolding list_elements
list_elements-split value = collect_lem (suc (length value)) value (omega arith)
