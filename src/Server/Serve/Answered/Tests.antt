-- ===== src/Server/Serve/Answered/Tests.antt =====
-- Pipelined requests on a connection, cut anywhere, of which the second asks to close: src/server/serve.cpp at concrete bytes.
use carafe.Base.{◌≡◌, refl, inl, arith, List, [], ◌∷◌, map, true, All, codes, find, equal, ◌++◌}
use carafe.Http.Ascii.{ascii_lower, ascii_equals_lowered}
use carafe.Http.FieldList.{list_elements}
use carafe.Http.Framing.{measure_body, parse_content_length}
use carafe.Http.Headers
use carafe.Http.Headers.{HeaderField}
use carafe.Http.Request.{method_name, Request}
use carafe.Http.RequestParser.{contains_ctl, is_tchar, all_valid_value_chars, is_valid_value_char}
use carafe.Http.RequestParser.Line.Parts.{nil, plain}
use carafe.Http.RequestReader.Printed.{Message, sized, by_length, IsPrintable, IsSendable}
use carafe.Http.RequestReader.Printed.Tests.{host_field-IsPrintable}
use carafe.Net.Socket.{got, read}
use carafe.Server.Connection.{ReadTurn, new_connection}
use carafe.Server.Connection.Arrival.{Delivers}
use carafe.Server.Connection.Whole.{chunks}
use carafe.Server.Serve.{serve_connection, turns_of, client_wants_close}
use carafe.Server.Serve.Answered.{texts, serve_connection-texts}
use carafe.Server.Serve.Order.{reply, answered}
use carafe.Server.Serve.Tests.{served, first, second, host, patient}

abbrev pub first_sent : Message
first_sent = record { request = record first { headers = host }; transfer = sized }

abbrev close_field : HeaderField
close_field = record { name = codes "connection"; value = codes "close" }

abbrev closing : Request
closing = record second { headers = host ++ close_field ∷ [] }

abbrev last_sent : Message
last_sent = record { request = closing; transfer = sized }

pub first-IsSendable : IsSendable first_sent
unfolding Headers.count Headers.get Headers.contains ascii_lower ascii_equals_lowered measure_body
    parse_content_length method_name find contains_ctl
first-IsSendable = record {
  target = record {
    ne_nil = λ e. cc;
    no_space = refl;
    no_ctl = refl;
    encoded = plain refl (plain refl nil);
  };
  fields = (host_field-IsPrintable, tt);
  no_params = refl;
  hosted = inl refl;
  framed = by_length refl;
  line_short = omega arith;
  few = omega arith;
  head_small = omega arith;
  body_small = omega arith;
}

close_field-IsPrintable : IsPrintable close_field
unfolding is_tchar ascii_lower all_valid_value_chars is_valid_value_char
close_field-IsPrintable = record {
  name_ne_nil = λ e. cc;
  name_tchars = (refl, (refl, (refl, (refl, (refl, (refl, (refl, (refl, (refl, (refl, tt))))))))));
  name_lower = refl;
  value_opens = refl;
  value_ends = refl;
  value_valid = refl;
  short = omega arith;
}

last-IsSendable : IsSendable last_sent
unfolding Headers.count Headers.get Headers.contains ascii_lower ascii_equals_lowered measure_body
    parse_content_length method_name
last-IsSendable = record {
  target = first-IsSendable.target;
  fields = (host_field-IsPrintable, (close_field-IsPrintable, tt));
  no_params = refl;
  hosted = inl refl;
  framed = by_length refl;
  line_short = omega arith;
  few = omega arith;
  head_small = omega arith;
  body_small = omega arith;
}

abbrev cut_texts : List ReadTurn
cut_texts =
    record {
      now = 0;
      refused = 0;
      recvs = got (codes "GET /a HTTP/1.1\r\nhost: h\r\n\r\nHEAD /a HTTP/1.1\r") ∷ [];
      after = 5;
    }
    ∷ record {
      now = 6;
      refused = 0;
      recvs =
          got (codes "\nhost: h\r\nconnection: close\r\n\r\nGET /a HTTP/1.1\r\nhost: h\r\n\r\n")
          ∷ [];
      after = 7;
    }
    ∷ []

cut_texts-Delivers : All (Delivers patient.request 1000006) cut_texts
unfolding read
cut_texts-Delivers = (
  record {
    bytes = _;
    left = [];
    brings = refl;
    accepted = refl;
    in_time = omega arith;
    closes = omega arith;
  },
  (
    record {
      bytes = _;
      left = [];
      brings = refl;
      accepted = refl;
      in_time = omega arith;
      closes = omega arith;
    },
    tt,
  ),
)

cut_texts-texts : chunks cut_texts ≡ texts (first_sent ∷ last_sent ∷ first_sent ∷ [])
unfolding read method_name
cut_texts-texts = refl

serve_connection-texts_example :
    serve_connection served (turns_of (true ∷ true ∷ true ∷ []) cut_texts (new_connection patient))
    ≡ map (reply served) (first_sent.request ∷ closing ∷ [])
unfolding answered client_wants_close equal list_elements ascii_equals_lowered
serve_connection-texts_example =
    serve_connection-texts served patient 1000006 (first_sent ∷ last_sent ∷ first_sent ∷ [])
      cut_texts (first-IsSendable, (last-IsSendable, (first-IsSendable, tt))) cut_texts-Delivers
      cut_texts-texts
