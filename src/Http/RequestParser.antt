-- ===== src/Http/RequestParser.antt =====
-- src/http/request_parser.hpp and src/http/request_parser.cpp: a request line and a header field, each
-- with its CRLF removed.
pub mod Line
pub mod Field
use mathlib.Core.Option
use carafe.Base.{
  ℕ, ◌+◌, ◌-◌, Bool, true, false, not, ◌&&◌, ◌||◌, Option, none, some, List, [], ◌∷◌, ◌++◌, map,
  ltb, leb, within, ◌==◌, if◌then◌else◌, Bytes, codes, equal, find, find_from, length, get_elem?,
  take, drop, substr,
}
use carafe.Http.Ascii.{ascii_lower}
use carafe.Http.Headers.{HeaderField}
use carafe.Http.Request.{
  Method, get, head, post, put, delete, connect, options, trace, patch, Version, http10, http11,
  RequestLine,
}

pub data ParseError : Type 0 where
  malformed unknown_method unsupported_version : ParseError

-- `RequestLineResult`: the value, or an error other than `ParseError::None`.
pub data RequestLineResult : Type 0 where
  parsed : RequestLine → RequestLineResult
  failed : ParseError → RequestLineResult

-- The rows of `table`, in their order.
abbrev pub method_table : List (Bytes × Method)
method_table =
    (codes "GET", get)
    ∷ (codes "HEAD", head)
    ∷ (codes "POST", post)
    ∷ (codes "PUT", put)
    ∷ (codes "DELETE", delete)
    ∷ (codes "CONNECT", connect)
    ∷ (codes "OPTIONS", options)
    ∷ (codes "TRACE", trace)
    ∷ (codes "PATCH", patch)
    ∷ []

-- The loop over a table of names.
unfoldable pub look_up : {A : Type 0} → List (Bytes × A) → Bytes → Option A
look_up [] token = none
look_up ((name, a) ∷ table) token = if equal token name then some a else look_up table token

unfoldable pub lookup_method : Bytes → Option Method
unfolding look_up equal
lookup_method token = look_up method_table token

abbrev pub version_table : List (Bytes × Version)
version_table = (codes "HTTP/1.0", http10) ∷ (codes "HTTP/1.1", http11) ∷ []

-- `std::isdigit` in the C locale.
abbrev pub is_digit : ℕ → Bool
is_digit ch = within b'0' b'9' ch

-- `token[i]` tested; the source indexes only where it has tested the size.
abbrev pub at_is : (ℕ → Bool) → Bytes → ℕ → Bool
at_is test token i = elim (get_elem? token i) [ none ↦ false | some ch ↦ test ch ]

unfoldable pub version_shape : Bytes → Bool
version_shape token =
    length token == 8
    && equal (substr token 0 5) (codes "HTTP/")
    && at_is (λ ch. ch == b'.') token 6
    && at_is is_digit token 5
    && at_is is_digit token 7

pub data VersionResult : Type 0 where
  version_is : Version → VersionResult
  version_failed : ParseError → VersionResult

unfoldable pub known_version : Option Version → VersionResult
known_version (some version) = version_is version
known_version none = version_failed unsupported_version

unfoldable pub parse_version : Bytes → VersionResult
parse_version token =
    if not (version_shape token)
    then version_failed malformed
    else known_version (look_up version_table token)

unfoldable pub contains_ctl : Bytes → Bool
contains_ctl [] = false
contains_ctl (ch ∷ text) = ltb ch 0x20 || ch == 0x7f || contains_ctl text

unfoldable pub is_hex_digit : ℕ → Bool
is_hex_digit ch = within b'0' b'9' ch || within b'A' b'F' ch || within b'a' b'f' ch

unfoldable pub is_tchar : ℕ → Bool
is_tchar ch =
    within b'A' b'Z' ch
    || within b'a' b'z' ch
    || within b'0' b'9' ch
    || ch == b'!'
    || ch == b'#'
    || ch == b'$'
    || ch == b'%'
    || ch == b'&'
    || ch == b'\''
    || ch == b'*'
    || ch == b'+'
    || ch == b'-'
    || ch == b'.'
    || ch == b'^'
    || ch == b'_'
    || ch == b'`'
    || ch == b'|'
    || ch == b'~'

abbrev pub is_ows : ℕ → Bool
is_ows ch = ch == b' ' || ch == b'\t'

unfoldable pub is_valid_value_char : ℕ → Bool
is_valid_value_char ch = ch == b'\t' || (leb 0x20 ch && not (ch == 0x7f))

-- The loop, on the bytes from `i` on: `i + 2 >= size` is the case of fewer than two bytes behind '%'.
unfoldable pub has_valid_escapes : Bytes → Bool
has_valid_escapes [] = true
has_valid_escapes (c ∷ []) = not (c == b'%')
has_valid_escapes (c ∷ d ∷ []) = not (c == b'%') && not (d == b'%')
has_valid_escapes (c ∷ d ∷ e ∷ target) =
    let skipped = has_valid_escapes target in
    let next = has_valid_escapes (d ∷ e ∷ target) in
    if not (c == b'%') then next else is_hex_digit d && is_hex_digit e && skipped

-- The checks on the three parts, in the order of the source.
unfoldable pub parse_method : Bytes → Bytes → Version → RequestLineResult
parse_method method_part target_part version = elim (lookup_method method_part) [
  | none ↦ failed unknown_method
  | some method ↦ parsed (record { method = method; target = target_part; version = version })
]

unfoldable pub parse_target : Bytes → Bytes → Version → RequestLineResult
parse_target method_part target_part version =
    if not (has_valid_escapes target_part)
    then failed malformed
    else parse_method method_part target_part version

unfoldable pub parse_parts : Bytes → Bytes → Bytes → RequestLineResult
parse_parts method_part target_part version_part =
    if length method_part == 0 || length target_part == 0 || length version_part == 0
    then failed malformed
    else elim (parse_version version_part) [
      | version_failed err ↦ failed err
      | version_is version ↦ parse_target method_part target_part version
    ]

-- The line with its first two spaces found.
unfoldable pub split_line : Bytes → ℕ → ℕ → RequestLineResult
split_line line sp1 sp2 =
    if contains_ctl line then failed malformed else elim (find_from b' ' line (sp2 + 1)) [
      | some sp3 ↦ failed malformed
      | none ↦
          parse_parts (substr line 0 sp1) (substr line (sp1 + 1) (sp2 - sp1 - 1))
            (drop (sp2 + 1) line)
    ]

unfoldable pub parse_request_line : Bytes → RequestLineResult
parse_request_line line = elim (find b' ' line) [
  | none ↦ failed malformed
  | some sp1 ↦ elim (find_from b' ' line (sp1 + 1)) [
    | none ↦ failed malformed
    | some sp2 ↦ split_line line sp1 sp2
  ]
]

-- The loop over `name_part`: every byte a tchar, folded as it is copied.
unfoldable pub lower_name : Bytes → Option Bytes
lower_name [] = some []
lower_name (ch ∷ name_part) =
    if not (is_tchar ch)
    then none
    else Option.map (λ rest. ascii_lower ch ∷ rest) (lower_name name_part)

-- The first scan: `start` moves over OWS.
unfoldable pub skip_ows : Bytes → Bytes
skip_ows [] = []
skip_ows (ch ∷ value) = if is_ows ch then skip_ows value else ch ∷ value

-- The second scan, on what the first left: `end` moves back over OWS.
unfoldable pub drop_trailing_ows : Bytes → Bytes
drop_trailing_ows [] = []
drop_trailing_ows (ch ∷ value) = elim (drop_trailing_ows value) [
  | [] ↦ if is_ows ch then [] else ch ∷ []
  | d ∷ rest ↦ ch ∷ d ∷ rest
]

abbrev pub trim_ows : Bytes → Bytes
trim_ows value = drop_trailing_ows (skip_ows value)

unfoldable pub all_valid_value_chars : Bytes → Bool
all_valid_value_chars [] = true
all_valid_value_chars (ch ∷ value) = is_valid_value_char ch && all_valid_value_chars value

unfoldable pub parse_field_parts : Bytes → Bytes → Option HeaderField
parse_field_parts name_part value_part =
    if length name_part == 0 then none else elim (lower_name name_part) [
      | none ↦ none
      | some name ↦
          if not (all_valid_value_chars value_part)
          then none
          else some (record { name = name; value = trim_ows value_part })
    ]

unfoldable pub parse_header_field : Bytes → Option HeaderField
parse_header_field line = elim (find b':' line) [
  | none ↦ none
  | some colon_pos ↦ parse_field_parts (substr line 0 colon_pos) (drop (colon_pos + 1) line)
]
