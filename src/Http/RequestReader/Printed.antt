-- ===== src/Http/RequestReader/Printed.antt =====
-- A request as a client writes it: the text that src/http/request_reader.cpp is given, line by line.
pub mod Handled
pub mod Chunks
pub mod Reported
pub mod Seen
pub mod Tests
use carafe.Base.{
  length-append, All, All-append, All-map, ==_iff, ℕ, ◌+◌, ◌≤◌, ◌<◌, Bool, true, false, not, ◌&&◌,
  ◌||◌, none, some, List, [], ◌∷◌, ◌++◌, ◌≡◌, ◌≢◌, ◌⊎◌, refl, sym, ap, inl, inr, arith, Bytes,
  codes, map, length, append-nil, ◌==◌, Bool-cases, if◌then◌else◌,
}
use carafe.Http.Ascii.{ascii_lower}
use carafe.Http.Framing.{
  max_head_bytes, max_fields, max_body_bytes, crlf_size, length_is, length_chunked, ChunkLength,
  chunk_is, parse_chunk_size, measure_body,
}
use carafe.Http.Headers
use carafe.Http.Headers.{HeaderField}
use carafe.Http.LineReader.{find_crlf, crlf, max_line_length}
use carafe.Http.Request.{Request, RequestLine, is_http10}
use carafe.Http.RequestParser.{
  all_valid_value_chars, is_valid_value_char, is_tchar, contains_ctl, parse_header_field,
}
use carafe.Http.RequestParser.Line.{contains_ctl-print, print, IsTarget}
use carafe.Http.RequestParser.Field.{IsFieldLine, parse_header_field_iff}
use carafe.Http.RequestParser.Field.Trim.{opens_with_ows, ends_with_ows}

-- A field as it is printed.
abbrev pub field_text : HeaderField → Bytes
field_text field = field.name ++ b':' ∷ b' ' ∷ field.value

-- The field lines with the empty line behind them, and the body.
abbrev pub rest_text : Headers.Headers → Bytes → Bytes
rest_text [] content = crlf ++ content
rest_text (field ∷ fields) content = field_text field ++ (crlf ++ rest_text fields content)

abbrev pub line_of : Request → RequestLine
line_of request = record {
  method = request.method;
  target = request.target;
  version = request.version;
}

-- A chunk with its size line.
pub record Chunk : Type 0 where
  pub size : Bytes
  pub bytes : Bytes

-- How the body is sent: as it is, or in chunks, with the size line of the empty chunk that ends them
-- and the trailers behind it.
pub data Transfer : Type 0 where
  sized : Transfer
  chunked : List Chunk → Bytes → Headers.Headers → Transfer

-- A request, and how it is sent.
pub record Message : Type 0 where
  pub request : Request
  pub transfer : Transfer

abbrev pub chunks_text : List Chunk → Bytes → Headers.Headers → Bytes
chunks_text [] last fields = last ++ (crlf ++ rest_text fields [])
chunks_text (chunk ∷ chunks) last fields =
    chunk.size ++ (crlf ++ ((chunk.bytes ++ crlf) ++ chunks_text chunks last fields))

abbrev pub body_text : Transfer → Bytes → Bytes
body_text sized content = content
body_text (chunked chunks last fields) content = chunks_text chunks last fields

abbrev pub message_text : Message → Bytes
message_text message =
    print (line_of message.request)
    ++ (crlf ++ rest_text message.request.headers (body_text message.transfer message.request.body))

abbrev pub all_bytes : List Chunk → Bytes
all_bytes [] = []
all_bytes (chunk ∷ chunks) = chunk.bytes ++ all_bytes chunks

-- The bytes that lines with their terminators take.
abbrev pub fields_size : Headers.Headers → ℕ
fields_size [] = 0
fields_size (field ∷ fields) = length (field_text field) + crlf_size + fields_size fields

-- A field that can be printed, with its name in lower case.
pub record IsPrintable (field : HeaderField) : Type 0 where
  pub name_ne_nil : field.name ≢ []
  pub name_tchars : All (λ c. is_tchar c ≡ true) field.name
  pub name_lower : map ascii_lower field.name ≡ field.name
  pub value_opens : opens_with_ows field.value ≡ false
  pub value_ends : ends_with_ows field.value ≡ false
  pub value_valid : all_valid_value_chars field.value ≡ true
  pub short : length (field_text field) < max_line_length

-- One Host, or none where the version asks for none.
abbrev pub IsHosted : Request → Type 0
IsHosted request =
    (Headers.count request.headers (codes "host") ≡ 1)
    ⊎ ((Headers.count request.headers (codes "host") ≡ 0) × (is_http10 request.version ≡ true))

-- A size line that says `n`.
pub record SaysSize (n : ℕ) (text : Bytes) : Type 0 where
  pub size_is : parse_chunk_size text ≡ chunk_is n
  pub one_line : find_crlf text ≡ none
  pub short : length text < max_line_length

pub record IsChunk (chunk : Chunk) : Type 0 where
  pub size_line : SaysSize (length chunk.bytes) chunk.size
  pub some_bytes : 0 < length chunk.bytes

-- The fields frame the body in the way in which it is sent.
pub data IsFramed (request : Request) : Transfer → Type 0 where
  by_length :
      measure_body request.headers request.version ≡ length_is (length request.body)
      → IsFramed request sized
  by_chunks :
      (chunks : List Chunk) (last : Bytes) (fields : Headers.Headers)
      → measure_body request.headers request.version ≡ length_chunked
      → All IsChunk chunks
      → SaysSize 0 last
      → All IsPrintable fields
      → all_bytes chunks ≡ request.body
      → IsFramed request (chunked chunks last fields)

-- The trailers and the empty line behind them are charged to the head.
abbrev pub trailer_size : Transfer → ℕ
trailer_size sized = 0
trailer_size (chunked chunks last fields) = fields_size fields + crlf_size

abbrev pub trailer_count : Transfer → ℕ
trailer_count sized = 0
trailer_count (chunked chunks last fields) = length fields

-- A request that the caps allow, with the fields that its version asks for and the body that they
-- promise.
pub record IsSendable (message : Message) : Type 0 where
  pub target : IsTarget message.request.target
  pub fields : All IsPrintable message.request.headers
  pub no_params : message.request.params ≡ []
  pub hosted : IsHosted message.request
  pub framed : IsFramed message.request message.transfer
  pub line_short : length (print (line_of message.request)) < max_line_length
  pub few : length message.request.headers + trailer_count message.transfer ≤ max_fields
  pub head_small :
      length (print (line_of message.request))
        + crlf_size
        + fields_size message.request.headers
        + crlf_size
        + trailer_size message.transfer
      ≤ max_head_bytes
  pub body_small : length message.request.body ≤ max_body_bytes

-- A text with no LF holds no terminator.
abbrev NotLf : ℕ → Type 0
NotLf c = (c == b'\n') ≡ false

NotLf-no_crlf : (s : Bytes) → All NotLf s → find_crlf s ≡ none
unfolding find_crlf
NotLf-no_crlf [] a = refl
NotLf-no_crlf (c ∷ []) a = refl
NotLf-no_crlf (c ∷ d ∷ s) (a, (b, more)) = ground (arith, NotLf-no_crlf (d ∷ s) (b, more))

no_ctl-NotLf : (s : Bytes) → contains_ctl s ≡ false → All NotLf s
unfolding contains_ctl
no_ctl-NotLf [] e = tt
no_ctl-NotLf (c ∷ s) e = (ground arith, no_ctl-NotLf s (ground arith))

valid-NotLf : (s : Bytes) → all_valid_value_chars s ≡ true → All NotLf s
unfolding all_valid_value_chars is_valid_value_char
valid-NotLf [] e = tt
valid-NotLf (c ∷ s) e = (ground arith, valid-NotLf s (ground arith))

tchar-NotLf : (c : ℕ) → is_tchar c ≡ true → NotLf c
unfolding is_tchar
tchar-NotLf c t = elim (Bool-cases (c == b'\n')) [
  | inl e ↦ absurd (cc (rw ((==_iff c b'\n').0 e) at t))
  | inr e ↦ e
]

pub field_text-no_crlf :
    (field : HeaderField) → IsPrintable field → find_crlf (field_text field) ≡ none
field_text-no_crlf field p = NotLf-no_crlf (field_text field) (
    All-append NotLf field.name (b':' ∷ b' ' ∷ field.value)
      (All-map field.name tchar-NotLf p.name_tchars)
      (refl, (refl, valid-NotLf field.value p.value_valid)))

pub print-no_crlf : (rl : RequestLine) → IsTarget rl.target → find_crlf (print rl) ≡ none
print-no_crlf rl t =
    NotLf-no_crlf (print rl) (no_ctl-NotLf (print rl) (contains_ctl-print rl t.no_ctl))

pub field_text-parses :
    (field : HeaderField) → IsPrintable field → parse_header_field (field_text field) ≡ some field
field_text-parses field p = (parse_header_field_iff (field_text field) field).1 (record {
  name_part = field.name;
  value_part = b' ' ∷ field.value;
  line_is = refl;
  name_ne_nil = p.name_ne_nil;
  name_tchars = p.name_tchars;
  name_folded = sym p.name_lower;
  value_trimmed = record {
    before = b' ' ∷ [];
    after = [];
    text_is = ap (◌∷◌ b' ') (sym (append-nil field.value));
    before_ows = (refl, tt);
    after_ows = tt;
    opens = p.value_opens;
    ends = p.value_ends;
  };
  value_valid = p.value_valid;
})

length-ne-nil : (s : Bytes) → 0 < length s → s ≢ []
length-ne-nil [] h e = absurd (omega arith)
length-ne-nil (x ∷ s) h e = cc

pub field_text_some : (field : HeaderField) → field_text field ≢ []
field_text_some field =
    length-ne-nil (field_text field)
      (omega (arith, length-append field.name (b':' ∷ b' ' ∷ field.value)))
