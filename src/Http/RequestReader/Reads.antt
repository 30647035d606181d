-- ===== src/Http/RequestReader/Reads.antt =====
-- How a text takes a reader of src/http/request_reader.cpp to a request, line by line and at last by
-- its body.
use carafe.Base.{
  ℕ, suc, ◌+◌, ◌≤◌, ◌<◌, Bool, true, false, none, some, [], ◌∷◌, ◌++◌, ◌≡◌, ◌≢◌, refl, sym, ap,
  subst, ◌∙◌, inl, inr, arith, Bytes, length, append-cases, length-append, append_assoc,
  Option-cases, ltb, le→ltb, lt→ltb, take-append_length, drop-take_length,
}
use carafe.Http.Framing.{crlf_size}
use carafe.Http.LineReader.{no_line, find_crlf, crlf, max_line_length, empty_reader}
use carafe.Http.LineReader.Delivery.{read_line-delivers}
use carafe.Http.LineReader.Scan.{find_crlf-append, find_crlf-append_crlf, find_crlf_bound}
use carafe.Http.LineReader.Refinement.{read_line}
use carafe.Http.ReaderState.{
  Phase, request_line, headers, body, chunk_size, chunk_data, trailers, nothing_yet, complete,
  RequestReader, Outcome, go_on, new_reader,
}
use carafe.Http.Request.{Request}
use carafe.Http.RequestReader.{charge_line, read_line_result, read_body, read_chunk}
use carafe.Http.RequestReader.Stream.{blank, round_bytes, rounds_bytes}
use carafe.Http.RequestReader.Dribble.{resume}
pub mod Waits

-- The phases that read a line.
abbrev pub takes_line : Phase → Bool
takes_line request_line = true
takes_line headers = true
takes_line chunk_size = true
takes_line trailers = true
takes_line _ = false

-- A reader between two requests: a new one but for the size of the last chunk that it met, which is
-- set again before it is read.
abbrev pub fresh : ℕ → RequestReader
fresh chunk = record new_reader { chunk_bytes = chunk }

-- The text is what `r` needs to hand over `x`.
pub data Reads : RequestReader → Bytes → Request → Type 0 where
  whole_line :
      {r q : RequestReader} (l s : Bytes) {x : Request}
      → takes_line r.phase ≡ true
      → find_crlf l ≡ none
      → length l < max_line_length
      → charge_line (blank r) l ≡ go_on q
      → Reads q s x
      → Reads r (l ++ (crlf ++ s)) x
  last_line :
      {r : RequestReader} {x : Request} (chunk : ℕ)
      → takes_line r.phase ≡ true
      → charge_line (blank r) [] ≡ (fresh chunk, some (complete x))
      → Reads r crlf x
  body_bytes :
      {r : RequestReader} (s : Bytes) {x : Request} (chunk : ℕ)
      → r.phase ≡ body
      → r.body_bytes ≡ length s
      → read_body (blank r) (empty_reader, some s) ≡ (fresh chunk, some (complete x))
      → Reads r s x
  whole_chunk :
      {r q : RequestReader} (c s : Bytes) {x : Request}
      → r.phase ≡ chunk_data
      → r.chunk_bytes + crlf_size ≡ length c
      → read_chunk (blank r) (empty_reader, some c) ≡ go_on q
      → Reads q s x
      → Reads r (c ++ s) x

pub round_bytes-read_line :
    (p : Phase) (r : RequestReader) (s : Bytes)
    → takes_line p ≡ true
    → round_bytes p r s ≡ (read_line_result r (empty_reader, (read_line s).1), (read_line s).0)
unfolding round_bytes
round_bytes-read_line request_line r s h = refl
round_bytes-read_line headers r s h = refl
round_bytes-read_line chunk_size r s h = refl
round_bytes-read_line trailers r s h = refl
round_bytes-read_line _ r s h = absurd (cc)

pub round_bytes-line :
    (p : Phase) (r : RequestReader) (l s : Bytes)
    → takes_line p ≡ true
    → find_crlf l ≡ none
    → length l ≤ max_line_length
    → round_bytes p r (l ++ (crlf ++ s)) ≡ (charge_line (blank r) l, s)
unfolding read_line_result
round_bytes-line p r l s h n c =
    round_bytes-read_line p r (l ++ (crlf ++ s)) h ∙ rw (read_line-delivers l s n c) refl

round_bytes-body :
    (r : RequestReader) (s rest : Bytes)
    → r.body_bytes ≡ length s
    → round_bytes body r (s ++ rest) ≡ (read_body (blank r) (empty_reader, some s), rest)
unfolding round_bytes read_body
round_bytes-body r s rest e =
    let room : ltb (length (s ++ rest)) (length s) ≡ false =
      le→ltb (length (s ++ rest)) (length s) (omega (arith, length-append s rest)) in
    rw (e, room, drop-take_length s rest, take-append_length s rest) refl

pub round_bytes-chunk :
    (r : RequestReader) (c rest : Bytes)
    → r.chunk_bytes + crlf_size ≡ length c
    → round_bytes chunk_data r (c ++ rest) ≡ (read_chunk (blank r) (empty_reader, some c), rest)
unfolding round_bytes read_chunk
round_bytes-chunk r c rest e =
    let room : ltb (length (c ++ rest)) (length c) ≡ false =
      le→ltb (length (c ++ rest)) (length c) (omega (arith, length-append c rest)) in
    rw (e, room, drop-take_length c rest, take-append_length c rest) refl

pub Reads-complete :
    {r : RequestReader} {s : Bytes} {x : Request}
    → Reads r s x
    → (rest : Bytes)
    → (n : ℕ) × (chunk : ℕ) × (rounds_bytes n r (s ++ rest) ≡ some (fresh chunk, rest, complete x))
unfolding rounds_bytes find_crlf
Reads-complete (whole_line {r} {q} l s {x} h n c e more) rest =
    let (k, chunk, later) = Reads-complete more rest in
    let step = round_bytes-line r.phase r l (s ++ rest) h n (omega (arith, c)) in
    (
      suc k,
      chunk,
      ap (λ t. rounds_bytes (suc k) r t) (append_assoc l (crlf ++ s) rest)
          ∙ ap (resume k) (step ∙ ap (λ (o : Outcome). (o, s ++ rest)) e)
          ∙ later,
    )
Reads-complete (last_line {r} {x} chunk h e) rest =
    let step = round_bytes-line r.phase r [] rest h refl (omega arith) in
    (1, chunk, ap (resume 0) (step ∙ ap (λ (o : Outcome). (o, rest)) e))
Reads-complete (body_bytes {r} s {x} chunk at b e) rest =
    let step = round_bytes-body r s rest b in
    (
      1,
      chunk,
      ap (resume 0)
          (ap (λ p. round_bytes p r (s ++ rest)) at ∙ step ∙ ap (λ (o : Outcome). (o, rest)) e),
    )
Reads-complete (whole_chunk {r} {q} c s {x} at b e more) rest =
    let (k, chunk, later) = Reads-complete more rest in
    let step = round_bytes-chunk r c (s ++ rest) b in
    (
      suc k,
      chunk,
      ap (λ t. rounds_bytes (suc k) r t) (append_assoc c s rest)
          ∙ ap (resume k) (
              ap (λ p. round_bytes p r (c ++ (s ++ rest))) at
              ∙ step
              ∙ ap (λ (o : Outcome). (o, s ++ rest)) e)
          ∙ later,
    )
