-- ===== src/Http/RequestParser/Line/Tests.antt =====
-- Request lines at concrete inputs: src/http/request_parser.cpp.
use carafe.Base.{◌↔◌, ◌≡◌, refl, codes, equal, find, find_from}
use carafe.Http.Request.{get, http11, RequestLine}
use carafe.Http.RequestParser.{
  parsed, failed, malformed, unknown_method, unsupported_version, lookup_method, look_up,
  parse_version, version_shape, known_version, contains_ctl, is_hex_digit, has_valid_escapes,
  parse_method, parse_target, parse_parts, split_line, parse_request_line,
}
use carafe.Http.RequestParser.Line.{print, IsTarget, parse_request_line_iff}
use carafe.Http.RequestParser.Line.Parts.{nil, plain, escape}

abbrev requested : RequestLine
requested = record { method = get; target = codes "/a%20"; version = http11 }

requested-IsTarget : IsTarget requested.target
unfolding find contains_ctl is_hex_digit
requested-IsTarget = record {
  ne_nil = λ e. cc;
  no_space = refl;
  no_ctl = refl;
  encoded = plain refl (plain refl (escape refl refl nil));
}

requested_parses : parse_request_line (codes "GET /a%20 HTTP/1.1") ≡ parsed requested
unfolding parse_request_line split_line parse_parts parse_target parse_method parse_version
    version_shape known_version look_up lookup_method contains_ctl has_valid_escapes is_hex_digit
    equal find find_from
requested_parses = refl

refused_lines :
    (parse_request_line (codes "GET /a%2 HTTP/1.1") ≡ failed malformed)
    × (parse_request_line (codes "GET /a HTTP/2.0") ≡ failed unsupported_version)
    × (parse_request_line (codes "BREW /a HTTP/1.1") ≡ failed unknown_method)
unfolding parse_request_line split_line parse_parts parse_target parse_method parse_version
    version_shape known_version look_up lookup_method contains_ctl has_valid_escapes is_hex_digit
    equal find find_from
refused_lines = (refl, refl, refl)

parse_request_line_iff_example :
    (parse_request_line (codes "GET /a%20 HTTP/1.1") ≡ parsed requested)
    ↔ ((codes "GET /a%20 HTTP/1.1" ≡ print requested) × IsTarget requested.target)
parse_request_line_iff_example = parse_request_line_iff (codes "GET /a%20 HTTP/1.1") requested
