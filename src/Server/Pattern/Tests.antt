-- ===== src/Server/Pattern/Tests.antt =====
-- The patterns of src/server/router.cpp at concrete paths.
use carafe.Base.{true, some, [], ◌∷◌, ◌++◌, ◌≡◌, refl, Bytes, codes, equal, find}
use carafe.Http.Ascii.{ascii_hex_value, ascii_hex_digit, ascii_unreserved}
use carafe.Http.Path.{segments, walk_segment, walk_body, escape, normalize_path}
use carafe.Http.Request.{Params}
use carafe.Http.RequestParser.{has_valid_escapes, is_hex_digit}
use carafe.Server.Pattern.{no_capture, rest_capture, Pattern, matches, compile, percent_decode}
use carafe.Server.Pattern.Rest.{Captures, rest-Captures}

abbrev front : Pattern
front =
    record { text = []; capture = no_capture }
    ∷ record { text = codes "f"; capture = no_capture }
    ∷ []

abbrev asked : Bytes
asked = codes "/x/../f/a%20b/./c"

abbrev captured : Params
captured = record { name = codes "p"; value = codes "a b/c" } ∷ []

asked_valid : has_valid_escapes asked ≡ true
unfolding has_valid_escapes is_hex_digit
asked_valid = refl

asked-captured :
    matches true
      (front ++ record { text = codes "p"; capture = rest_capture } ∷ [])
      (normalize_path asked)
    ≡ some captured
unfolding normalize_path segments walk_body walk_segment equal ascii_hex_value ascii_hex_digit
    ascii_unreserved matches percent_decode escape
asked-captured = refl

rest-Captures_example : Captures (codes "p") captured
rest-Captures_example = rest-Captures front (codes "p") asked captured asked_valid asked-captured

-- An escape that only normalising spells out: the parser refuses this target.
escaped_dots :
    matches true (compile (codes "/f/<path:p>")) (normalize_path (codes "/f/%%32%45%%32%45/x"))
    ≡ some (record { name = codes "p"; value = codes "../x" } ∷ [])
unfolding normalize_path segments walk_body walk_segment equal ascii_hex_value ascii_hex_digit
    ascii_unreserved matches percent_decode escape compile find
escaped_dots = refl
