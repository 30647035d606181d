-- ===== src/Server/Pattern.antt =====
-- The anonymous-namespace functions of src/server/router.cpp: a pattern, and how it matches a path.
mod Rest
mod Decode
pub mod Agree
mod Tests
use carafe.Base.{
  ℕ, ◌+◌, ◌-◌, Bool, true, false, not, ◌&&◌, ◌||◌, Option, none, some, List, [], ◌∷◌, ◌++◌, map,
  ltb, leb, ◌==◌, if◌then◌else◌, Bytes, codes, equal, find, length, take, drop, substr,
}
use carafe.Http.Path.{escape, escaped_byte, segments, normalize_path}
use carafe.Http.Request.{PathParam, Params}

-- `Capture`; `no_capture` is its `None`.
pub data Capture : Type 0 where
  no_capture text_capture number_capture rest_capture : Capture

pub record Segment : Type 0 where
  pub text : Bytes
  pub capture : Capture

abbrev pub Pattern : Type 0
Pattern = List Segment

-- The query is cut off.
abbrev pub path_of : Bytes → Bytes
path_of target = elim (find b'?' target) [ none ↦ target | some at ↦ take at target ]

unfoldable pub all_digits : Bytes → Bool
all_digits [] = true
all_digits (ch ∷ text) = if ltb ch b'0' || ltb b'9' ch then false else all_digits text

unfoldable pub percent_decode : Bytes → Bytes
percent_decode [] = []
percent_decode (c ∷ []) = c ∷ []
percent_decode (c ∷ h ∷ []) = c ∷ h ∷ []
percent_decode (c ∷ h ∷ l ∷ text) = elim (escape c h l) [
  | none ↦ c ∷ percent_decode (h ∷ l ∷ text)
  | some (high, low) ↦ escaped_byte high low ∷ percent_decode text
]

abbrev pub binds_a_name : Capture → Bool
binds_a_name no_capture = false
binds_a_name _ = true

unfoldable pub accepts : Segment → Bytes → Bool
unfolding all_digits
accepts segment piece = elim segment.capture [
  | no_capture ↦ equal segment.text piece
  | text_capture ↦ true
  | number_capture ↦ all_digits piece
  | rest_capture ↦ false
]

-- `path.find('/', start)`: the piece before the slash, and the path behind it; `none` for `npos`.
unfoldable pub cut_slash : Bytes → Bytes × Option Bytes
cut_slash [] = ([], none)
cut_slash (c ∷ path) =
    let (piece, behind) = cut_slash path in
    if c == b'/' then ([], some path) else (c ∷ piece, behind)

-- `std::count(text.begin(), text.end(), '/')`
unfoldable pub count_slashes : Bytes → ℕ
count_slashes [] = 0
count_slashes (c ∷ text) = (if c == b'/' then 1 else 0) + count_slashes text

abbrev pub is_rest : Capture → Bool
is_rest rest_capture = true
is_rest _ = false

-- Behind the loop: `index != pattern.size()`.
abbrev pub at_end : Pattern → Params → Option Params
at_end [] captured = some captured
at_end (segment ∷ pattern) captured = none

-- `out` says whether captures are wanted: with a null `out` they are not kept.
abbrev pub keep : Bool → Params → Bytes → Bytes → Params
keep out captured name value =
    if out then captured ++ record { name = name; value = value } ∷ [] else captured

unfoldable pub match_rest : Bool → Pattern → Segment → Bytes → Params → Option Params
unfolding percent_decode count_slashes
match_rest out pattern segment path captured =
    if not (count_slashes (percent_decode path) == count_slashes path)
    then none
    else at_end pattern (keep out captured segment.text (percent_decode path))

-- The loop, on the segments from `index` on and the path from `start` on; `none` is `false`.
unfoldable pub match_from : Bool → Pattern → Bytes → Params → Option Params
unfolding cut_slash accepts match_rest
match_from out [] path captured = none
match_from out (segment ∷ pattern) path captured =
    let (piece, behind) = cut_slash path in
    let kept =
      if binds_a_name segment.capture
      then keep out captured segment.text (percent_decode piece)
      else captured in
    let next : Option Params = elim behind [
      | none ↦ at_end pattern kept
      | some later ↦ match_from out pattern later kept
    ] in
    if binds_a_name segment.capture && length piece == 0
    then none
    else if is_rest segment.capture
    then match_rest out pattern segment path captured
    else if not (accepts segment piece)
    then none
    else next

unfoldable pub matches : Bool → Pattern → Bytes → Option Params
unfolding match_from
matches out pattern path = match_from out pattern path []

unfoldable pub capture_for : Bytes → Capture
capture_for converter =
    if equal converter (codes "str")
    then text_capture
    else if equal converter (codes "int")
    then number_capture
    else if equal converter (codes "path")
    then rest_capture
    else no_capture

abbrev back : Bytes → Option ℕ
back [] = none
back (c ∷ []) = some c
back (c ∷ d ∷ s) = back (d ∷ s)

abbrev is_byte : Option ℕ → ℕ → Bool
is_byte none c = false
is_byte (some d) c = d == c

abbrev front : Bytes → Option ℕ
front [] = none
front (c ∷ s) = some c

abbrev binds_nothing : Capture → Bool
binds_nothing no_capture = true
binds_nothing _ = false

unfoldable pub compile_parameter : Bytes → Bytes → Segment
unfolding capture_for
compile_parameter whole inner = elim (find b':' inner) [
  | none ↦ record { text = inner; capture = text_capture }
  | some colon ↦
      let capture = capture_for (take colon inner) in
      let name = drop (colon + 1) inner in
      if binds_nothing capture || length name == 0
      then record { text = whole; capture = no_capture }
      else record { text = name; capture = capture }
]

unfoldable pub compile_segment : Bytes → Segment
unfolding compile_parameter
compile_segment whole =
    if ltb (length whole) 3 || not (is_byte (front whole) b'<') || not (is_byte (back whole) b'>')
    then record { text = whole; capture = no_capture }
    else compile_parameter whole (substr whole 1 (length whole - 2))

unfoldable pub compile : Bytes → Pattern
unfolding compile_segment
compile path = map compile_segment (segments path)

unfoldable pub routable_path : Bytes → Bytes
routable_path target = normalize_path (path_of target)
