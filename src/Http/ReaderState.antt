-- ===== src/Http/ReaderState.antt =====
-- src/http/request_reader.hpp, and the members of `RequestReader` that arm, finish, fail and refuse in
-- src/http/request_reader.cpp. A member function takes the reader, and returns the reader after the
-- call with its result.
use carafe.Base.{ℕ, Bool, true, false, Option, none, some, Bytes}
use carafe.Http.Framing.{RequestError}
use carafe.Http.LineReader
use carafe.Http.LineReader.{LineReader, empty_reader}
use carafe.Http.Request.{Request, Version, empty_request}

pub data Phase : Type 0 where
  request_line headers body discarding chunk_size chunk_data trailers : Phase

-- `RequestResult`: nothing yet, a request, or a failure with `stream_continues` and `version`.
pub data RequestResult : Type 0 where
  nothing_yet : RequestResult
  complete : Request → RequestResult
  failure : RequestError → Bool → Version → RequestResult

-- `failure_` is `none` for `RequestError::None`.
pub record RequestReader : Type 0 where
  pub phase : Phase
  pub line_reader : LineReader
  pub request : Request
  pub latched : Option RequestError
  pub head_bytes : ℕ
  pub body_bytes : ℕ
  pub chunk_bytes : ℕ
  pub field_count : ℕ

abbrev pub new_reader : RequestReader
new_reader = record {
  phase = request_line;
  line_reader = empty_reader;
  request = empty_request;
  latched = none;
  head_bytes = 0;
  body_bytes = 0;
  chunk_bytes = 0;
  field_count = 0;
}

-- What a handler leaves: `none` means "read another line" or "go round again".
abbrev pub Outcome : Type 0
Outcome = RequestReader × Option RequestResult

abbrev pub go_on : RequestReader → Outcome
go_on r = (r, none)

unfoldable pub arm_next_request : RequestReader → RequestReader
arm_next_request r = record r {
  phase = request_line;
  request = empty_request;
  head_bytes = 0;
  body_bytes = 0;
  field_count = 0;
}

unfoldable pub finish_request : RequestReader → Outcome
finish_request r = (arm_next_request r, some (complete r.request))

unfoldable pub fail : RequestReader → RequestError → Outcome
fail r error = (record r { latched = some error }, some (failure error false r.request.version))

unfoldable pub refuse : RequestReader → RequestError → Outcome
refuse r error = (record r { phase = discarding }, some (failure error true r.request.version))

unfoldable pub append : RequestReader → Bytes → RequestReader
append r bytes = record r { line_reader = LineReader.append r.line_reader bytes }
