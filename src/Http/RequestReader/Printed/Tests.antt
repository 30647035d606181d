-- ===== src/Http/RequestReader/Printed/Tests.antt =====
-- A request that is written and read back: src/http/request_reader.cpp at a concrete request.
use carafe.Base.{ℕ, [], ◌∷◌, equal, ◌≡◌, refl, sym, inl, arith, some, ◌++◌, Bytes, codes, find}
use carafe.Http.Ascii.{ascii_lower, ascii_equals_lowered, ascii_hex_value}
use carafe.Http.Framing.{measure_body, parse_content_length, parse_chunk_size, transfer_codings}
use carafe.Http.Headers
use carafe.Http.Headers.{HeaderField}
use carafe.Http.ReaderState.{nothing_yet, complete, RequestReader}
use carafe.Http.Request.{method_name}
use carafe.Http.RequestParser.{contains_ctl, is_tchar, is_valid_value_char, all_valid_value_chars}
use carafe.Http.RequestParser.Line.{IsTarget}
use carafe.Http.RequestParser.Line.Parts.{nil, plain}
use carafe.Http.RequestReader.Printed.{
  IsPrintable, Message, message_text, sized, chunked, by_length, by_chunks, IsSendable,
}
use carafe.Http.RequestReader.Printed.Reported.{reports-message_text, reports-message_text_part}
use carafe.Http.RequestReader.Reads.{fresh}
use carafe.Http.LineReader.{find_crlf}
use carafe.Http.FieldList.{list_elements}
use carafe.Http.RequestReader.Stable.{reports}
use carafe.Http.RequestReader.Tests.{posted}

abbrev host_field : HeaderField
host_field = record { name = codes "host"; value = codes "h" }

abbrev length_field : HeaderField
length_field = record { name = codes "content-length"; value = codes "2" }

pub host_field-IsPrintable : IsPrintable host_field
unfolding is_tchar ascii_lower all_valid_value_chars is_valid_value_char
host_field-IsPrintable = record {
  name_ne_nil = λ e. cc;
  name_tchars = (refl, (refl, (refl, (refl, tt))));
  name_lower = refl;
  value_opens = refl;
  value_ends = refl;
  value_valid = refl;
  short = omega arith;
}

length_field-IsPrintable : IsPrintable length_field
unfolding is_tchar ascii_lower all_valid_value_chars is_valid_value_char
length_field-IsPrintable = record {
  name_ne_nil = λ e. cc;
  name_tchars = (
    refl,
    (
      refl,
      (
        refl,
        (refl, (refl, (refl, (refl, (refl, (refl, (refl, (refl, (refl, (refl, (refl, tt))))))))))),
      ),
    ),
  );
  name_lower = refl;
  value_opens = refl;
  value_ends = refl;
  value_valid = refl;
  short = omega arith;
}

posted-IsTarget : IsTarget posted.target
unfolding find contains_ctl
posted-IsTarget = record {
  ne_nil = λ e. cc;
  no_space = refl;
  no_ctl = refl;
  encoded = plain refl (plain refl nil);
}

abbrev as_is : Message
as_is = record { request = posted; transfer = sized }

posted-IsSendable : IsSendable as_is
unfolding Headers.count Headers.get Headers.contains ascii_lower ascii_equals_lowered measure_body
    parse_content_length method_name
posted-IsSendable = record {
  target = posted-IsTarget;
  fields = (host_field-IsPrintable, (length_field-IsPrintable, tt));
  no_params = refl;
  hosted = inl refl;
  framed = by_length refl;
  line_short = omega arith;
  few = omega arith;
  head_small = omega arith;
  body_small = omega arith;
}

posted_text :
    message_text as_is ≡ codes "POST /e HTTP/1.1\r\nhost: h\r\ncontent-length: 2\r\n\r\nok"
unfolding method_name
posted_text = refl

abbrev coding_field : HeaderField
coding_field = record { name = codes "transfer-encoding"; value = codes "chunked" }

-- "hello, " and "world", in two chunks, with a trailer.
abbrev in_pieces : Message
in_pieces = record {
  request = record posted { headers = host_field ∷ coding_field ∷ []; body = codes "hello, world" };
  transfer =
      chunked
        (record { size = codes "7"; bytes = codes "hello, " }
          ∷ record { size = codes "05;x"; bytes = codes "world" }
          ∷ [])
        (codes "0") (host_field ∷ []);
}

coding_field-IsPrintable : IsPrintable coding_field
unfolding is_tchar ascii_lower all_valid_value_chars is_valid_value_char
coding_field-IsPrintable = record {
  name_ne_nil = λ e. cc;
  name_tchars = (
    refl,
    (
      refl,
      (
        refl,
        (
          refl,
          (
            refl,
            (
              refl,
              (
                refl,
                (refl, (refl, (refl, (refl, (refl, (refl, (refl, (refl, (refl, (refl, tt)))))))))),
              ),
            ),
          ),
        ),
      ),
    ),
  );
  name_lower = refl;
  value_opens = refl;
  value_ends = refl;
  value_valid = refl;
  short = omega arith;
}

in_pieces-IsSendable : IsSendable in_pieces
unfolding Headers.count Headers.get Headers.contains ascii_lower ascii_equals_lowered measure_body
    parse_chunk_size ascii_hex_value method_name equal find find_crlf list_elements transfer_codings
in_pieces-IsSendable = record {
  target = posted-IsTarget;
  fields = (host_field-IsPrintable, (coding_field-IsPrintable, tt));
  no_params = refl;
  hosted = inl refl;
  framed =
      by_chunks _ (codes "0") (host_field ∷ []) refl
        (
          record {
            size_line = record { size_is = refl; one_line = refl; short = omega arith };
            some_bytes = omega arith;
          },
          (
            record {
              size_line = record { size_is = refl; one_line = refl; short = omega arith };
              some_bytes = omega arith;
            },
            tt,
          ),
        )
        (record { size_is = refl; one_line = refl; short = omega arith })
        (host_field-IsPrintable, tt) refl;
  line_short = omega arith;
  few = omega arith;
  head_small = omega arith;
  body_small = omega arith;
}

in_pieces_text :
    message_text in_pieces
    ≡ codes
        "POST /e HTTP/1.1\r\nhost: h\r\ntransfer-encoding: chunked\r\n\r\n7\r\nhello, \r\n05;x\r\nworld\r\n0\r\nhost: h\r\n\r\n"
unfolding method_name
in_pieces_text = refl

reports-message_text_example :
    (last : ℕ) × (reports (fresh 0) (message_text in_pieces ++ codes "GET")
      ≡ some (fresh last, codes "GET", complete in_pieces.request))
reports-message_text_example = reports-message_text in_pieces 0 (codes "GET") in_pieces-IsSendable

reports-message_text_part_example :
    (q : RequestReader) × (left : Bytes) × (reports
        (fresh 0)
        (codes "POST /e HTTP/1.1\r\nhost: h\r")
      ≡ some (q, left, nothing_yet))
reports-message_text_part_example =
    reports-message_text_part as_is 0 (codes "POST /e HTTP/1.1\r\nhost: h\r")
      (codes "\ncontent-length: 2\r\n\r\nok") posted-IsSendable (λ e. cc) (sym posted_text)
