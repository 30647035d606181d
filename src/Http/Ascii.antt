-- ===== src/Http/Ascii.antt =====
-- src/http/ascii.hpp: case folding, comparison and hexadecimal digits on ASCII bytes.
use carafe.Base.{
  ℕ, ◌+◌, ◌-◌, Bool, true, false, ◌&&◌, ◌||◌, Option, none, some, [], ◌∷◌, within, ltb, ◌==◌,
  if◌then◌else◌, Bytes,
}

unfoldable pub ascii_lower : ℕ → ℕ
ascii_lower ch = if within b'A' b'Z' ch then ch + (b'a' - b'A') else ch

-- The two loops: the size test, then the bytes in step.
unfoldable pub ascii_equals_lowered : Bytes → Bytes → Bool
unfolding ascii_lower
ascii_equals_lowered [] [] = true
ascii_equals_lowered [] (c ∷ text) = false
ascii_equals_lowered (l ∷ lowered) [] = false
ascii_equals_lowered (l ∷ lowered) (c ∷ text) =
    ascii_lower c == l && ascii_equals_lowered lowered text

-- `none` stands for the -1 of the source.
unfoldable pub ascii_hex_value : ℕ → Option ℕ
ascii_hex_value ch =
    if within b'0' b'9' ch
    then some (ch - b'0')
    else if within b'a' b'f' ch
    then some (ch - b'a' + 10)
    else if within b'A' b'F' ch
    then some (ch - b'A' + 10)
    else none

unfoldable pub ascii_hex_digit : ℕ → ℕ
ascii_hex_digit value = if ltb value 10 then b'0' + value else b'A' + value - 10

unfoldable pub ascii_unreserved : ℕ → Bool
ascii_unreserved ch =
    within b'A' b'Z' ch
    || within b'a' b'z' ch
    || within b'0' b'9' ch
    || ch == b'-'
    || ch == b'.'
    || ch == b'_'
    || ch == b'~'
