-- ===== src/Http/RequestReader/Limits.antt =====
-- The caps of src/http/request_reader.cpp on what one request may hold.
use carafe.Base.{
  ℕ, ◌+◌, ◌-◌, ◌≤◌, true, false, Option, none, some, [], ◌∷◌, ◌≡◌, refl, inl, inr, arith, Bytes,
  length, take, drop, map, length-append, length-take, ltb, ltb_false→le, Bool-cases,
}
use carafe.Http.Ascii.{ascii_lower}
use carafe.Http.Framing.{
  crlf_size, max_fields, max_head_bytes, max_body_bytes, BodyLength, measure_body,
}
use carafe.Http.Headers
use carafe.Http.Headers.{HeaderField}
use carafe.Http.LineReader
use carafe.Http.LineReader.{
  LineReader, LineResult, line_too_long, no_line, line, next_line, discard,
}
use carafe.Http.ReaderState.{
  Phase, request_line, headers, body, discarding, chunk_size, chunk_data, trailers, RequestResult,
  nothing_yet, complete, failure, RequestReader, Outcome, arm_next_request, finish_request, fail,
  refuse,
}
use carafe.Http.Request.{Request}
use carafe.Http.RequestParser.{parse_header_field}
use carafe.Http.RequestReader.{
  handle_request_line, start_body, complete_head, add_field, handle_field_line, start_chunk,
  handle_chunk_size, drop_field, handle_trailer_line, handle_line, is_chunk_size, charge_line,
  read_line_result, read_discard, read_body, read_chunk, read_body_bytes, read_next_line, round,
  rounds,
}
use carafe.Http.RequestReader.Rounds.{Keeps, rounds_inv}

-- What a request may hold.
pub record IsWithin (request : Request) : Type 0 where
  pub fields : length request.headers ≤ max_fields
  pub body_bytes : length request.body ≤ max_body_bytes

-- The body that a phase still promises fits with what has arrived.
abbrev pub Promise : Phase → ℕ → ℕ → ℕ → Type 0
Promise body body_bytes arrived chunk_bytes = body_bytes ≤ max_body_bytes
Promise chunk_data body_bytes arrived chunk_bytes = arrived + chunk_bytes ≤ max_body_bytes
Promise _ body_bytes arrived chunk_bytes = Unit

pub record IsBounded (r : RequestReader) : Type 0 where
  pub counted : length r.request.headers ≤ r.field_count
  pub few : r.field_count ≤ max_fields
  pub small : length r.request.body ≤ max_body_bytes
  pub promise : Promise r.phase r.body_bytes (length r.request.body) r.chunk_bytes

-- A reader that has latched a failure hands nothing over.
abbrev pub Bounds : RequestReader → RequestResult → Type 0
Bounds q (complete request) = IsWithin request × IsBounded q
Bounds q nothing_yet = IsBounded q
Bounds q (failure error true version) = IsBounded q
Bounds q (failure error false version) = Unit

abbrev pub KeepsBounds : Outcome → Type 0
KeepsBounds = Keeps IsBounded Bounds

-- The line reader and the bytes of the head do not count.
pub relined :
    (r : RequestReader) (l : LineReader) → IsBounded r → IsBounded (record r { line_reader = l })
relined r l b = record { counted = b.counted; few = b.few; small = b.small; promise = b.promise }

charged : (r : RequestReader) (n : ℕ) → IsBounded r → IsBounded (record r { head_bytes = n })
charged r n b = record { counted = b.counted; few = b.few; small = b.small; promise = b.promise }

length-add :
    (fields : Headers.Headers) (f : HeaderField) → length (Headers.add fields f) ≡ length fields + 1
unfolding Headers.add
length-add fields f =
    omega (arith, length-append fields (record f { name = map ascii_lower f.name } ∷ []))

module _ (r : RequestReader) (b : IsBounded r) where
  handle_request_line-KeepsBounds : (t : Bytes) → KeepsBounds (handle_request_line r t)
  unfolding handle_request_line fail
  handle_request_line-KeepsBounds t = ground arith

  start_body-KeepsBounds : (n : BodyLength) → KeepsBounds (start_body r n)
  unfolding start_body fail refuse finish_request arm_next_request
  start_body-KeepsBounds n = ground arith

  complete_head-KeepsBounds : KeepsBounds (complete_head r)
  unfolding complete_head fail
  complete_head-KeepsBounds =
      ground (arith, start_body-KeepsBounds (measure_body r.request.headers r.request.version))

  handle_chunk_size-KeepsBounds : (t : Bytes) → KeepsBounds (handle_chunk_size r t)
  unfolding handle_chunk_size start_chunk fail
  handle_chunk_size-KeepsBounds t = ground arith

  add_field-KeepsBounds :
      (f : Option HeaderField)
      → r.field_count + 1 ≤ max_fields
      → KeepsBounds (add_field (record r { field_count = r.field_count + 1 }) f)
  unfolding add_field fail
  add_field-KeepsBounds none h = tt
  add_field-KeepsBounds (some f) h = record {
    counted = omega (arith, b.counted, length-add r.request.headers f);
    few = h;
    small = b.small;
    promise = b.promise;
  }

  handle_field_line-KeepsBounds : (t : Bytes) → KeepsBounds (handle_field_line r t)
  unfolding handle_field_line fail
  handle_field_line-KeepsBounds [] = complete_head-KeepsBounds
  handle_field_line-KeepsBounds (c ∷ t) = elim (Bool-cases (ltb max_fields (r.field_count + 1))) [
    | inl over ↦ rw over tt
    | inr room ↦ rw room (
        add_field-KeepsBounds (parse_header_field (c ∷ t))
          (ltb_false→le max_fields (r.field_count + 1) room))
  ]

  drop_field-KeepsBounds :
      (f : Option HeaderField)
      → r.field_count + 1 ≤ max_fields
      → KeepsBounds (drop_field (record r { field_count = r.field_count + 1 }) f)
  unfolding drop_field fail
  drop_field-KeepsBounds none h = tt
  drop_field-KeepsBounds (some f) h = record {
    counted = omega (arith, b.counted);
    few = h;
    small = b.small;
    promise = b.promise;
  }

  finish_request-KeepsBounds : KeepsBounds (finish_request r)
  unfolding finish_request arm_next_request
  finish_request-KeepsBounds = (omega (arith, b.counted, b.few, b.small), omega arith)

  handle_trailer_line-KeepsBounds : (t : Bytes) → KeepsBounds (handle_trailer_line r t)
  unfolding handle_trailer_line fail
  handle_trailer_line-KeepsBounds [] = finish_request-KeepsBounds
  handle_trailer_line-KeepsBounds (c ∷ t) = elim (Bool-cases (ltb max_fields (r.field_count + 1))) [
    | inl over ↦ rw over tt
    | inr room ↦ rw room (
        drop_field-KeepsBounds (parse_header_field (c ∷ t))
          (ltb_false→le max_fields (r.field_count + 1) room))
  ]

  handle_line-KeepsBounds : (p : Phase) (t : Bytes) → KeepsBounds (handle_line p r t)
  unfolding handle_line
  handle_line-KeepsBounds request_line t = handle_request_line-KeepsBounds t
  handle_line-KeepsBounds headers t = handle_field_line-KeepsBounds t
  handle_line-KeepsBounds chunk_size t = handle_chunk_size-KeepsBounds t
  handle_line-KeepsBounds trailers t = handle_trailer_line-KeepsBounds t
  handle_line-KeepsBounds _ t = b

charge_line-KeepsBounds :
    (r : RequestReader) (t : Bytes) → IsBounded r → KeepsBounds (charge_line r t)
unfolding charge_line fail
charge_line-KeepsBounds r t b = elim (Bool-cases (is_chunk_size r.phase)) [
  | inl s ↦ rw s (handle_line-KeepsBounds r b r.phase t)
  | inr n ↦ rw n (elim (Bool-cases (ltb max_head_bytes (r.head_bytes + length t + crlf_size))) [
    | inl over ↦ rw over tt
    | inr room ↦
        rw room
          (handle_line-KeepsBounds _ (charged r (r.head_bytes + length t + crlf_size) b) r.phase t)
  ])
]

read_line_result-KeepsBounds :
    (r : RequestReader) (l : LineReader) (res : LineResult)
    → IsBounded r
    → KeepsBounds (read_line_result r (l, res))
unfolding read_line_result fail
read_line_result-KeepsBounds r l line_too_long b = tt
read_line_result-KeepsBounds r l no_line b = relined r l b
read_line_result-KeepsBounds r l (line t) b =
    charge_line-KeepsBounds (record r { line_reader = l }) t (relined r l b)

-- `take` hands out as many bytes as it was asked for, at most.
length-take_bytes :
    (l : LineReader) (n : ℕ) (bytes : Bytes)
    → (LineReader.take l n).1 ≡ some bytes
    → length bytes ≤ n
unfolding LineReader.take
length-take_bytes l n bytes e = ground (arith, length-take n (drop l.begin l.buffer))

read_body-KeepsBounds :
    (r : RequestReader) (l : LineReader) (bytes : Option Bytes)
    → r.phase ≡ body
    → IsBounded r
    → ((t : Bytes) → bytes ≡ some t → length t ≤ r.body_bytes)
    → KeepsBounds (read_body r (l, bytes))
unfolding read_body finish_request arm_next_request
read_body-KeepsBounds r l none at b h = relined r l b
read_body-KeepsBounds r l (some t) at b h =
    let p : r.body_bytes ≤ max_body_bytes = rw at at b.promise in
    (omega (arith, b.counted, b.few, h t refl), omega arith)

read_chunk-KeepsBounds :
    (r : RequestReader) (l : LineReader) (chunk : Option Bytes)
    → r.phase ≡ chunk_data
    → IsBounded r
    → KeepsBounds (read_chunk r (l, chunk))
unfolding read_chunk fail
read_chunk-KeepsBounds r l none at b = relined r l b
read_chunk-KeepsBounds r l (some t) at b =
    let p : length r.request.body + r.chunk_bytes ≤ max_body_bytes = rw at at b.promise in
    ground (
      arith,
      b.counted,
      b.few,
      length-append r.request.body (take r.chunk_bytes t),
      length-take r.chunk_bytes t,
    )

read_discard-KeepsBounds :
    (r : RequestReader) (l : LineReader) (n : ℕ)
    → r.phase ≡ discarding
    → IsBounded r
    → KeepsBounds (read_discard r (l, n))
unfolding read_discard arm_next_request
read_discard-KeepsBounds r l n at b = elim (Bool-cases (ltb 0 (r.body_bytes - n))) [
  | inl left ↦
      rw left (record { counted = b.counted; few = b.few; small = b.small; promise = rw at tt })
  | inr over ↦
      rw over
        (record { counted = omega arith; few = omega arith; small = omega arith; promise = tt })
]

round-KeepsBounds :
    (p : Phase) (r : RequestReader) → r.phase ≡ p → IsBounded r → KeepsBounds (round p r)
unfolding round read_body_bytes read_next_line
round-KeepsBounds discarding r at b = read_discard-KeepsBounds r _ _ at b
round-KeepsBounds body r at b =
    read_body-KeepsBounds r _ _ at b (length-take_bytes r.line_reader r.body_bytes)
round-KeepsBounds chunk_data r at b = read_chunk-KeepsBounds r _ _ at b
round-KeepsBounds _ r at b =
    read_line_result-KeepsBounds r (next_line r.line_reader).0 (next_line r.line_reader).1 b

pub rounds-Bounds :
    (n : ℕ) (r q : RequestReader) (x : RequestResult)
    → IsBounded r
    → rounds n r ≡ some (q, x)
    → Bounds q x
rounds-Bounds n r q x =
    rounds_inv IsBounded Bounds (λ r b. round-KeepsBounds r.phase r refl b) n r q x
