-- ===== src/Http/RequestReader/Printed/Chunks.antt =====
-- The handlers of src/http/request_reader.cpp on a body that is sent in chunks.
use carafe.Base.{
  ℕ, ◌+◌, ◌≤◌, false, some, List, [], ◌∷◌, ◌++◌, ◌≡◌, refl, sym, ap, ◌∙◌, arith, Bytes, length,
  ◌==◌, le→ltb, ◌≢◌, drop-take_length, take-append_length, All, append_assoc, append-nil,
  length-append, equal,
}
use carafe.Http.Framing.{max_head_bytes, max_fields, max_body_bytes, crlf_size}
use carafe.Http.Headers.{Headers, HeaderField}
use carafe.Http.LineReader.{crlf, empty_reader}
use carafe.Http.ReaderState.{
  chunk_size, chunk_data, trailers, complete, RequestReader, go_on, finish_request,
  arm_next_request,
}
use carafe.Http.Request.{Request}
use carafe.Http.RequestParser.{parse_header_field}
use carafe.Http.RequestReader.{
  drop_field, handle_line, handle_chunk_size, start_chunk, handle_trailer_line, is_chunk_size,
  charge_line, read_chunk,
}
use carafe.Http.RequestReader.Printed.{
  Chunk, chunks_text, rest_text, all_bytes, fields_size, SaysSize, IsChunk, IsPrintable, field_text,
  field_text_some, field_text-parses, field_text-no_crlf,
}
use carafe.Http.RequestReader.Printed.Handled.{in_head, charge_line-room, sent}
use carafe.Http.RequestReader.Reads.{fresh, Reads, whole_line, last_line, whole_chunk}

-- The reader that has read `content` of the body, and waits for a size line.
abbrev pub in_chunks : Request → ℕ → ℕ → ℕ → Bytes → RequestReader
in_chunks request bytes n chunk content =
    let r = in_head request request.headers bytes n chunk in
    record r { phase = chunk_size; request = record r.request { body = content } }

charge_line-size :
    (request : Request) (bytes n chunk : ℕ) (content : Bytes) (c : Chunk)
    → IsChunk c
    → length content + length c.bytes ≤ max_body_bytes
    → charge_line (in_chunks request bytes n chunk content) c.size
      ≡ go_on (record (in_chunks request bytes n (length c.bytes) content) { phase = chunk_data })
unfolding charge_line handle_line is_chunk_size handle_chunk_size start_chunk
charge_line-size request bytes n chunk content c v small =
    let sized : (length c.bytes == 0) ≡ false = ground (arith, v.some_bytes) in
    rw (
      v.size_line.size_is,
      start_chunk,
      sized,
      le→ltb max_body_bytes (length content + length c.bytes) small,
    )

read_chunk-whole :
    (request : Request) (bytes n : ℕ) (content : Bytes) (c : Chunk)
    → read_chunk
        (record (in_chunks request bytes n (length c.bytes) content) { phase = chunk_data })
        (empty_reader, some (c.bytes ++ crlf))
      ≡ go_on (in_chunks request bytes n (length c.bytes) (content ++ c.bytes))
unfolding read_chunk equal
read_chunk-whole request bytes n content c =
    rw (drop-take_length c.bytes crlf, take-append_length c.bytes crlf) refl

charge_line-last :
    (request : Request) (bytes n chunk : ℕ) (content last : Bytes)
    → SaysSize 0 last
    → charge_line (in_chunks request bytes n chunk content) last
      ≡ go_on (record (in_chunks request bytes n chunk content) { phase = trailers })
unfolding charge_line handle_line is_chunk_size handle_chunk_size start_chunk
charge_line-last request bytes n chunk content last v = rw (v.size_is, start_chunk)

charge_line-trailer :
    (request : Request) (bytes n chunk : ℕ) (content : Bytes)
    → bytes + 0 + crlf_size ≤ max_head_bytes
    → charge_line (record (in_chunks request bytes n chunk content) { phase = trailers }) []
      ≡ (fresh chunk, some (complete (record request { body = content; params = [] })))
unfolding handle_line handle_trailer_line is_chunk_size finish_request arm_next_request
charge_line-trailer request bytes n chunk content h =
    charge_line-room (record (in_chunks request bytes n chunk content) { phase = trailers }) [] refl
      h

handle_trailer_line-parsed :
    (r : RequestReader) (t : Bytes) (field : HeaderField)
    → t ≢ []
    → r.field_count + 1 ≤ max_fields
    → parse_header_field t ≡ some field
    → handle_trailer_line r t ≡ go_on (record r { field_count = r.field_count + 1 })
unfolding handle_trailer_line drop_field
handle_trailer_line-parsed r [] field ne few e = absurd (ne refl)
handle_trailer_line-parsed r (c ∷ t) field ne few e =
    rw (le→ltb max_fields (r.field_count + 1) few, e) refl

-- The reader behind the empty chunk.
abbrev in_trailers : Request → ℕ → ℕ → ℕ → Bytes → RequestReader
in_trailers request bytes n chunk content = record (in_chunks request bytes n chunk content) {
  phase = trailers;
}

charge_line-dropped :
    (request : Request) (bytes n chunk : ℕ) (content : Bytes) (field : HeaderField)
    → IsPrintable field
    → bytes + length (field_text field) + crlf_size ≤ max_head_bytes
    → n + 1 ≤ max_fields
    → charge_line (in_trailers request bytes n chunk content) (field_text field)
      ≡ go_on (
          in_trailers request (bytes + length (field_text field) + crlf_size) (n + 1) chunk content)
unfolding handle_line is_chunk_size
charge_line-dropped request bytes n chunk content field p h few =
    charge_line-room (in_trailers request bytes n chunk content) (field_text field) refl h
    ∙ handle_trailer_line-parsed
        (in_trailers request (bytes + length (field_text field) + crlf_size) n chunk content)
        (field_text field) field (field_text_some field) few (field_text-parses field p)

-- The trailers, and the empty line behind them.
trailers-Reads :
    (request : Request) (bytes n chunk : ℕ) (fields : Headers) (content : Bytes)
    → All IsPrintable fields
    → bytes + fields_size fields + crlf_size ≤ max_head_bytes
    → n + length fields ≤ max_fields
    → content ≡ request.body
    → request.params ≡ []
    → Reads (in_trailers request bytes n chunk content) (rest_text fields []) request
trailers-Reads request bytes n chunk [] content ps h few e no_params = last_line chunk refl (
    charge_line-trailer request bytes n chunk content (omega (arith, h))
    ∙ ap (λ x. (fresh chunk, some (complete x))) (sent request content e no_params))
trailers-Reads request bytes n chunk (field ∷ fields) content (p, ps) h few e no_params =
    whole_line (field_text field) (rest_text fields []) refl (field_text-no_crlf field p) p.short
      (charge_line-dropped request bytes n chunk content field p (omega (arith, h))
        (omega (arith, few)))
      (trailers-Reads request (bytes + length (field_text field) + crlf_size) (n + 1) chunk fields
        content ps (omega (arith, h)) (omega (arith, few)) e no_params)

-- Chunks, the size line of the empty one, and what stands behind it.
pub chunks-Reads :
    (request : Request) (bytes n chunk : ℕ) (content : Bytes) (chunks : List Chunk) (last : Bytes)
    (fields : Headers)
    → All IsChunk chunks
    → SaysSize 0 last
    → All IsPrintable fields
    → content ++ all_bytes chunks ≡ request.body
    → length request.body ≤ max_body_bytes
    → bytes + fields_size fields + crlf_size ≤ max_head_bytes
    → n + length fields ≤ max_fields
    → request.params ≡ []
    → Reads (in_chunks request bytes n chunk content) (chunks_text chunks last fields) request
chunks-Reads request bytes n chunk content [] last fields cs v ps e small h few no_params =
    whole_line last (rest_text fields []) refl v.one_line v.short
      (charge_line-last request bytes n chunk content last v)
      (trailers-Reads request bytes n chunk fields content ps h few (sym (append-nil content) ∙ e)
        no_params)
chunks-Reads request bytes n chunk content (c ∷ chunks) last fields (w, cs) v ps e small h few
      no_params =
    whole_line c.size ((c.bytes ++ crlf) ++ chunks_text chunks last fields) refl
      w.size_line.one_line w.size_line.short
      (charge_line-size request bytes n chunk content c w (
        omega (
          arith,
          ap length e,
          small,
          length-append content (c.bytes ++ all_bytes chunks),
          length-append c.bytes (all_bytes chunks),
        )))
      (whole_chunk (c.bytes ++ crlf) (chunks_text chunks last fields) refl
        (omega (arith, length-append c.bytes crlf)) (read_chunk-whole request bytes n content c)
        (chunks-Reads request bytes n (length c.bytes) (content ++ c.bytes) chunks last fields cs v
          ps (append_assoc content c.bytes (all_bytes chunks) ∙ e) small h few no_params))
