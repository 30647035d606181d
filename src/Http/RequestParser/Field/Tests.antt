-- ===== src/Http/RequestParser/Field/Tests.antt =====
-- Header fields at concrete inputs: src/http/request_parser.cpp.
use carafe.Base.{◌≡◌, refl, some, none, ◌↔◌, codes, find, [], ◌∷◌, ◌++◌}
use carafe.Http.Ascii.{ascii_lower}
use carafe.Http.Headers.{HeaderField}
use carafe.Http.RequestParser.{
  is_tchar, lower_name, skip_ows, drop_trailing_ows, is_valid_value_char, all_valid_value_chars,
  parse_field_parts, parse_header_field,
}
use carafe.Http.RequestParser.Field.{IsFieldLine, parse_header_field_iff}

abbrev spaced : HeaderField
spaced = record { name = codes "x-a"; value = codes "b: c" }

parse_header_field_iff_example :
    (parse_header_field (codes "X-a:  b: c ") ≡ some spaced)
    ↔ IsFieldLine (codes "X-a:  b: c ") spaced
parse_header_field_iff_example = parse_header_field_iff (codes "X-a:  b: c ") spaced

field_lines :
    (parse_header_field (codes "X-a:  b: c ") ≡ some spaced)
    × (parse_header_field (codes "X-a : b") ≡ none)
    × (parse_header_field (codes ": b") ≡ none)
    × (parse_header_field (codes "X-a") ≡ none)
    × (parse_header_field (codes "x:   ") ≡ some (record { name = codes "x"; value = [] }))
    × (parse_header_field (codes "x: a" ++ (0 ∷ [])) ≡ none)
unfolding parse_header_field parse_field_parts lower_name is_tchar ascii_lower skip_ows
    drop_trailing_ows is_valid_value_char all_valid_value_chars find
field_lines = (refl, refl, refl, refl, refl, refl)
