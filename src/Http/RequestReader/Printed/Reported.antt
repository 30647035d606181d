-- ===== src/Http/RequestReader/Printed/Reported.antt =====
-- `next_request` of src/http/request_reader.cpp on a printed request, and on a part of it.
use carafe.Base.{
  All, ℕ, ◌+◌, ◌≤◌, ◌<◌, some, [], ◌∷◌, ◌++◌, ◌≡◌, ◌≢◌, ◌⊎◌, refl, sym, ap, subst, ◌∙◌, inl, inr,
  arith, Bytes, length, append_assoc, append-nil,
}
use carafe.Http.Framing.{
  length_chunked, measure_body, max_body_bytes, BodyLength, max_head_bytes, max_fields, crlf_size,
  length_is,
}
use carafe.Http.Headers
use carafe.Http.LineReader.{crlf}
use carafe.Http.LineReader.History.{empty_reader-IsValid}
use carafe.Http.ReaderState.{
  body, nothing_yet, complete, RequestReader, finish_request, arm_next_request,
}
use carafe.Http.Request.{Request}
use carafe.Http.RequestParser.Line.{print}
use carafe.Http.RequestReader.{
  handle_line, handle_field_line, is_chunk_size, charge_line, start_body,
}
use carafe.Http.RequestReader.Dribble.{append_result, rounds_bytes_unique}
use carafe.Http.RequestReader.Printed.{
  field_text, rest_text, line_of, fields_size, IsPrintable, IsHosted, IsFramed, by_length,
  by_chunks, Transfer, sized, chunked, Message, message_text, body_text, chunks_text, trailer_size,
  trailer_count, IsSendable, print-no_crlf, field_text-no_crlf,
}
use carafe.Http.RequestReader.Printed.Chunks.{chunks-Reads}
use carafe.Http.RequestReader.Printed.Handled.{
  in_head, charge_line-room, charge_line-print, charge_line-field, complete_head-hosted,
  start_body_empty, start_body_sized, read_body-whole, sent,
}
use carafe.Http.RequestReader.Reads.{
  fresh, Reads, whole_line, last_line, body_bytes, Reads-complete,
}
use carafe.Http.RequestReader.Reads.Waits.{Reads-Waits, no_crlf-nil}
use carafe.Http.RequestReader.Stable.{reports}

blank_line :
    (request : Request) (bytes n chunk : ℕ) (body_length : BodyLength)
    → IsHosted request
    → measure_body request.headers request.version ≡ body_length
    → bytes + 0 + crlf_size ≤ max_head_bytes
    → charge_line (in_head request request.headers bytes n chunk) []
      ≡ start_body (in_head request request.headers (bytes + 0 + crlf_size) n chunk) body_length
unfolding handle_line handle_field_line is_chunk_size
blank_line request bytes n chunk body_length hosted framed h =
    charge_line-room (in_head request request.headers bytes n chunk) [] refl h
    ∙ complete_head-hosted request (in_head request request.headers (bytes + 0 + crlf_size) n chunk)
        body_length refl refl hosted framed

no_body :
    (request : Request) (bytes n chunk : ℕ)
    → request.body ≡ []
    → request.params ≡ []
    → start_body (in_head request request.headers bytes n chunk) (length_is (length request.body))
      ≡ (fresh chunk, some (complete request))
unfolding finish_request arm_next_request
no_body request bytes n chunk empty p =
    ap (λ b. start_body (in_head request request.headers bytes n chunk) (length_is (length b)))
      empty
    ∙ start_body_empty (in_head request request.headers bytes n chunk)
    ∙ ap (λ x. (fresh chunk, some (complete x))) (sent request [] (sym empty) p)

-- The reader behind a head that promises a body.
abbrev in_body : Request → ℕ → ℕ → ℕ → RequestReader
in_body request bytes n chunk = record (in_head request request.headers bytes n chunk) {
  body_bytes = length request.body;
  phase = body;
}

with_body :
    (request : Request) (bytes n chunk : ℕ)
    → request.params ≡ []
    → Reads (in_body request bytes n chunk) request.body request
unfolding finish_request arm_next_request
with_body request bytes n chunk p = body_bytes request.body chunk refl refl (
    read_body-whole request (in_body request bytes n chunk) chunk
      (ap (λ x. (fresh chunk, some (complete x))) (sent request request.body refl p)))

empty_cases : (s : Bytes) → (s ≡ []) ⊎ (0 < length s)
empty_cases [] = inl refl
empty_cases (x ∷ s) = inr (omega arith)

-- The empty line and a body of a given length.
sized-Reads :
    (request : Request) (bytes n chunk : ℕ)
    → IsHosted request
    → measure_body request.headers request.version ≡ length_is (length request.body)
    → request.params ≡ []
    → length request.body ≤ max_body_bytes
    → bytes + 0 + crlf_size ≤ max_head_bytes
    → Reads (in_head request request.headers bytes n chunk) (crlf ++ request.body) request
sized-Reads request bytes n chunk hosted framed p small h =
    let line = blank_line request bytes n chunk (length_is (length request.body)) hosted framed h in
    elim (empty_cases request.body) [
      | inl empty ↦
          subst (λ b. Reads (in_head request request.headers bytes n chunk) (crlf ++ b) request)
            (sym empty)
            (last_line chunk refl (line ∙ no_body request (bytes + 0 + crlf_size) n chunk empty p))
      | inr some_bytes ↦
          whole_line [] request.body refl no_crlf-nil (omega arith)
            (line ∙ start_body_sized _ (length request.body) some_bytes small)
            (with_body request (bytes + 0 + crlf_size) n chunk p)
    ]

-- The empty line and the body as it is sent.
body-Reads :
    (request : Request) (transfer : Transfer) (bytes n chunk : ℕ)
    → IsFramed request transfer
    → IsHosted request
    → request.params ≡ []
    → length request.body ≤ max_body_bytes
    → bytes + crlf_size + trailer_size transfer ≤ max_head_bytes
    → n + trailer_count transfer ≤ max_fields
    → Reads
        (in_head request request.headers bytes n chunk)
        (crlf ++ body_text transfer request.body)
        request
unfolding start_body
body-Reads request sized bytes n chunk (by_length framed) hosted p small h few =
    sized-Reads request bytes n chunk hosted framed p small (omega (arith, h))
body-Reads request (chunked chunks last fields) bytes n chunk (by_chunks _ _ _ framed cs v ps e)
      hosted p small h few =
    whole_line [] (chunks_text chunks last fields) refl no_crlf-nil (omega arith)
      (blank_line request bytes n chunk length_chunked hosted framed (omega (arith, h)))
      (chunks-Reads request (bytes + 0 + crlf_size) n chunk [] chunks last fields cs v ps e small
        (omega (arith, h)) few p)

fields-Reads :
    (message : Message) (before fields : Headers.Headers) (bytes n chunk : ℕ)
    → IsSendable message
    → All IsPrintable fields
    → before ++ fields ≡ message.request.headers
    → bytes + fields_size fields + crlf_size + trailer_size message.transfer ≤ max_head_bytes
    → n + length fields + trailer_count message.transfer ≤ max_fields
    → Reads
        (in_head message.request before bytes n chunk)
        (rest_text fields (body_text message.transfer message.request.body))
        message.request
fields-Reads message before [] bytes n chunk v ps e h few =
    subst
      (λ hs.
        Reads (in_head message.request hs bytes n chunk)
          (crlf ++ body_text message.transfer message.request.body) message.request)
      (sym e ∙ append-nil before)
      (body-Reads message.request message.transfer bytes n chunk v.framed v.hosted v.no_params
        v.body_small (omega (arith, h)) (omega (arith, few)))
fields-Reads message before (field ∷ fields) bytes n chunk v (p, ps) e h few =
    whole_line (field_text field)
      (rest_text fields (body_text message.transfer message.request.body)) refl
      (field_text-no_crlf field p) p.short
      (charge_line-field message.request before bytes n chunk field p (omega (arith, h))
        (omega (arith, few)))
      (fields-Reads message (before ++ field ∷ []) fields _ (n + 1) chunk v ps
        (append_assoc before (field ∷ []) fields ∙ e) (omega (arith, h)) (omega (arith, few)))

message-Reads :
    (message : Message) (chunk : ℕ)
    → IsSendable message
    → Reads (fresh chunk) (message_text message) message.request
message-Reads message chunk v =
    whole_line (print (line_of message.request))
      (rest_text message.request.headers (body_text message.transfer message.request.body)) refl
      (print-no_crlf (line_of message.request) v.target) v.line_short
      (charge_line-print message.request chunk v.target (omega (arith, v.head_small)))
      (fields-Reads message [] message.request.headers _ 0 chunk v v.fields refl
        (omega (arith, v.head_small)) (omega (arith, v.few)))

-- The text of a request that can be sent, with any bytes behind it, makes a reader that is between
-- two requests hand over exactly that request, and leaves a reader that is between two requests
-- and the bytes behind it. A request can be sent, as it is or in chunks, if its target is a target
-- and its fields are printable, with their names in lower case, it has one Host, or is of version
-- 1.0 and has none, `measure_body` finds in its fields the length of its body or that it is in
-- chunks, each chunk holds bytes and stands behind a size line that says how many, the last size
-- line says zero, the trailers behind it are printable fields too, every line is shorter than the
-- cap on lines, and the other caps allow it.
pub reports-message_text :
    (message : Message) (chunk : ℕ) (rest : Bytes)
    → IsSendable message
    → (last : ℕ) × (reports (fresh chunk) (message_text message ++ rest)
        ≡ some (fresh last, rest, complete message.request))
reports-message_text message chunk rest v =
    let (n, last, e) = Reads-complete (message-Reads message chunk v) rest in
    let (m, x, ex, sx) =
      append_result (fresh chunk) (message_text message ++ rest) empty_reader-IsValid refl in
    (
      last,
      sx
          ∙ rounds_bytes_unique m n x (fresh last, rest, complete message.request) (fresh chunk)
              (message_text message ++ rest) ex e,
    )

-- A part of the text of a request that can be sent, with the end missing, makes a reader that is
-- between two requests report nothing yet.
pub reports-message_text_part :
    (message : Message) (chunk : ℕ) (part rest : Bytes)
    → IsSendable message
    → rest ≢ []
    → part ++ rest ≡ message_text message
    → (q : RequestReader) × (left : Bytes) × (reports (fresh chunk) part
        ≡ some (q, left, nothing_yet))
reports-message_text_part message chunk part rest v ne cut =
    let (n, q, left, e) = Reads-Waits (message-Reads message chunk v) part rest ne cut in
    let (m, x, ex, sx) = append_result (fresh chunk) part empty_reader-IsValid refl in
    (q, left, sx ∙ rounds_bytes_unique m n x (q, left, nothing_yet) (fresh chunk) part ex e)
