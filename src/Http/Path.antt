-- ===== src/Http/Path.antt =====
-- src/http/path.cpp: the path as routing sees it.
pub mod Segments
pub mod Escapes
pub mod Dots
pub mod Normal
mod Tests
use carafe.Base.{
  ℕ, ◌+◌, ◌*◌, Bool, true, false, ◌||◌, Option, none, some, List, [], ◌∷◌, ◌++◌, ◌==◌,
  if◌then◌else◌, Bytes, codes, equal,
}
use carafe.Http.Ascii.{ascii_hex_value, ascii_hex_digit, ascii_unreserved}

-- The two digits of an escape whose '%' is `c`; `none` where the source has a -1, or no '%'.
abbrev pub low_digit : ℕ → Option ℕ → Option (ℕ × ℕ)
low_digit high none = none
low_digit high (some low) = some (high, low)

pub hex_pair : ℕ → ℕ → Option (ℕ × ℕ)
hex_pair h l = elim (ascii_hex_value h) [
  | none ↦ none
  | some high ↦ low_digit high (ascii_hex_value l)
]

unfoldable pub escape : ℕ → ℕ → ℕ → Option (ℕ × ℕ)
unfolding hex_pair
escape c h l = if c == b'%' then hex_pair h l else none

-- `(high << 4) | low`
abbrev pub escaped_byte : ℕ → ℕ → ℕ
escaped_byte high low = high * 16 + low

-- What an escape is written as.
unfoldable pub resolve_escape : ℕ → ℕ → Bytes
resolve_escape high low =
    if ascii_unreserved (escaped_byte high low)
    then escaped_byte high low ∷ []
    else b'%' ∷ ascii_hex_digit high ∷ ascii_hex_digit low ∷ []

unfoldable pub resolve_escapes : Bytes → Bytes
unfolding escape resolve_escape
resolve_escapes [] = []
resolve_escapes (c ∷ []) = c ∷ []
resolve_escapes (c ∷ h ∷ []) = c ∷ h ∷ []
resolve_escapes (c ∷ h ∷ l ∷ path) = elim (escape c h l) [
  | none ↦ c ∷ resolve_escapes (h ∷ l ∷ path)
  | some (high, low) ↦ resolve_escape high low ++ resolve_escapes path
]

abbrev pub prepend : ℕ → List Bytes → List Bytes
prepend c [] = (c ∷ []) ∷ []
prepend c (segment ∷ segments) = (c ∷ segment) ∷ segments

-- The views that a walk cuts with `find('/', pos)`, up to the end and through it.
unfoldable pub segments : Bytes → List Bytes
segments [] = [] ∷ []
segments (c ∷ path) = let rest = segments path in if c == b'/' then [] ∷ rest else prepend c rest

pub record Walk : Type 0 where
  pub kept : List Bytes
  pub ended_on_dots : Bool

unfoldable pub pop_back : List Bytes → List Bytes
pop_back [] = []
pop_back (segment ∷ []) = []
pop_back (segment ∷ next ∷ kept) = segment ∷ pop_back (next ∷ kept)

unfoldable pub walk_segment : Walk → Bytes → Walk
unfolding pop_back
walk_segment w segment =
    if equal segment (codes ".")
    then record w { ended_on_dots = true }
    else if equal segment (codes "..")
    then record { kept = pop_back w.kept; ended_on_dots = true }
    else record { kept = w.kept ++ segment ∷ []; ended_on_dots = false }

unfoldable pub walk : Walk → List Bytes → Walk
unfolding walk_segment
walk w [] = w
walk w (segment ∷ rest) = walk (walk_segment w segment) rest

unfoldable pub join : List Bytes → Bytes
join [] = []
join (segment ∷ []) = segment
join (segment ∷ next ∷ kept) = segment ++ b'/' ∷ join (next ∷ kept)

-- The trailing slash where the last segment was a dot segment.
abbrev pub closed : Walk → List Bytes
closed w = if w.ended_on_dots then w.kept ++ [] ∷ [] else w.kept

abbrev pub start : Walk
start = record { kept = []; ended_on_dots = false }

-- The segments that are joined in the end.
unfoldable pub walked : Bytes → List Bytes
unfolding walk
walked body = closed (walk start (segments body))

unfoldable pub walk_body : Bytes → Bytes
unfolding walked join
walk_body body = join (walked body)

unfoldable pub remove_dot_segments : Bytes → Bytes
unfolding walk_body
remove_dot_segments [] = walk_body []
remove_dot_segments (c ∷ path) = if c == b'/' then b'/' ∷ walk_body path else walk_body (c ∷ path)

unfoldable pub normalize_path : Bytes → Bytes
unfolding resolve_escapes remove_dot_segments
normalize_path path = remove_dot_segments (resolve_escapes path)
