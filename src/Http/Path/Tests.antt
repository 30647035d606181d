-- ===== src/Http/Path/Tests.antt =====
-- Paths of src/http/path.cpp at concrete inputs.
use carafe.Base.{true, ◌≡◌, refl, Bytes, All, codes, equal}
use carafe.Http.Ascii.{ascii_hex_value, ascii_hex_digit, ascii_unreserved}
use carafe.Http.Path.{segments, walk_body, normalize_path}
use carafe.Http.Path.Dots.{IsPlain}
use carafe.Http.Path.Normal.{normalize_path-IsPlain, normalize_path_idempotent}
use carafe.Http.RequestParser.{has_valid_escapes, is_hex_digit}

abbrev climbing : Bytes
climbing = codes "/a/%2e%2E/../b%2fc/%7Ed/."

climbing_normal : normalize_path climbing ≡ codes "/b%2Fc/~d/"
unfolding normalize_path segments walk_body equal ascii_hex_value ascii_hex_digit ascii_unreserved
climbing_normal = refl

doubly_escaped : normalize_path (codes "/%%32%45%%32%45/x") ≡ codes "/%2E%2E/x"
unfolding normalize_path segments walk_body equal ascii_hex_value ascii_hex_digit ascii_unreserved
doubly_escaped = refl

normalize_path-IsPlain_example : All IsPlain (segments (normalize_path climbing))
normalize_path-IsPlain_example = normalize_path-IsPlain climbing

climbing_valid : has_valid_escapes climbing ≡ true
unfolding has_valid_escapes is_hex_digit
climbing_valid = refl

normalize_path_idempotent_example :
    normalize_path (normalize_path climbing) ≡ normalize_path climbing
normalize_path_idempotent_example = normalize_path_idempotent climbing climbing_valid
