-- ===== src/Http/RequestReader/Reads/Waits.antt =====
-- A reader of src/http/request_reader.cpp that is asked before the whole text has come: next returns
-- nothing yet.
use carafe.Base.{
  ℕ, suc, ◌+◌, ◌≤◌, ◌<◌, true, none, some, [], ◌∷◌, ◌++◌, ◌≡◌, ◌≢◌, refl, sym, ap, subst, ◌∙◌, inl,
  inr, arith, Bytes, length, append-cases, length-append, append_assoc, Option-cases, le→ltb,
  lt→ltb,
}
use carafe.Http.Framing.{crlf_size}
use carafe.Http.LineReader.{no_line, find_crlf, crlf, max_line_length, empty_reader}
use carafe.Http.LineReader.Scan.{find_crlf-append, find_crlf-append_crlf, find_crlf_bound}
use carafe.Http.LineReader.Refinement.{read_line}
use carafe.Http.ReaderState.{Phase, body, chunk_data, nothing_yet, RequestReader, Outcome, go_on}
use carafe.Http.Request.{Request}
use carafe.Http.RequestReader.{charge_line, read_line_result, read_body, read_chunk}
use carafe.Http.RequestReader.Stream.{blank, round_bytes, rounds_bytes}
use carafe.Http.RequestReader.Dribble.{resume}
use carafe.Http.RequestReader.Reads.{
  takes_line, Reads, whole_line, last_line, body_bytes, whole_chunk, round_bytes-read_line,
  round_bytes-line, round_bytes-chunk,
}

-- A text that ends before the terminator of a line holds none.
cut_line-none :
    (l p d : Bytes) (c : ℕ) → find_crlf l ≡ none → l ++ crlf ≡ p ++ c ∷ d → find_crlf p ≡ none
cut_line-none l p d c n e = elim (Option-cases (find_crlf p)) [
  | inl out ↦ out
  | inr (i, f) ↦
      let found =
        sym (find_crlf-append p (c ∷ d) i f)
        ∙ ap find_crlf (sym e)
        ∙ find_crlf-append_crlf l [] n in
      let at : i ≡ length l = cc in
      absurd (
        omega (
          arith,
          at,
          find_crlf_bound p i f,
          ap length e,
          length-append l crlf,
          length-append p (c ∷ d),
        ))
]

cut_line-short : (l p d : Bytes) (c : ℕ) → l ++ crlf ≡ p ++ c ∷ d → length p ≤ length l + 1
cut_line-short l p d c e = omega (arith, ap length e, length-append l crlf, length-append p (c ∷ d))

read_line-no_line :
    (p : Bytes) → find_crlf p ≡ none → length p ≤ max_line_length → read_line p ≡ (p, no_line)
unfolding read_line
read_line-no_line p n h = rw (n, read_line, le→ltb max_line_length (length p) h) refl

-- A reader that is asked too early.
abbrev Waits : RequestReader → Bytes → Type 0
Waits r p =
    (n : ℕ) × (q : RequestReader) × (left : Bytes) × (rounds_bytes n r p
      ≡ some (q, left, nothing_yet))

round_bytes-no_line :
    (p : Phase) (r : RequestReader) (s : Bytes)
    → takes_line p ≡ true
    → read_line s ≡ (s, no_line)
    → round_bytes p r s ≡ ((blank r, some nothing_yet), s)
unfolding read_line_result
round_bytes-no_line p r s h e = round_bytes-read_line p r s h ∙ rw e refl

round_bytes-no_body :
    (r : RequestReader) (s : Bytes)
    → length s < r.body_bytes
    → round_bytes body r s ≡ ((blank r, some nothing_yet), s)
unfolding round_bytes read_body
round_bytes-no_body r s short = rw (lt→ltb (length s) r.body_bytes short) refl

round_bytes-no_chunk :
    (r : RequestReader) (s : Bytes)
    → length s < r.chunk_bytes + crlf_size
    → round_bytes chunk_data r s ≡ ((blank r, some nothing_yet), s)
unfolding round_bytes read_chunk
round_bytes-no_chunk r s short = rw (lt→ltb (length s) (r.chunk_bytes + crlf_size) short) refl

round-Waits :
    (r : RequestReader) (p : Bytes)
    → round_bytes r.phase r p ≡ ((blank r, some nothing_yet), p)
    → Waits r p
unfolding rounds_bytes
round-Waits r p e = (1, blank r, p, ap (resume 0) e)

line-Waits :
    (r : RequestReader) (l p d : Bytes) (c : ℕ)
    → takes_line r.phase ≡ true
    → find_crlf l ≡ none
    → length l < max_line_length
    → l ++ crlf ≡ p ++ c ∷ d
    → Waits r p
line-Waits r l p d c h n short e = round-Waits r p (
    round_bytes-no_line r.phase r p h (
      read_line-no_line p (cut_line-none l p d c n e)
        (omega (arith, short, cut_line-short l p d c e))))

body-Waits : (r : RequestReader) (p : Bytes) → r.phase ≡ body → length p < r.body_bytes → Waits r p
body-Waits r p at short =
    round-Waits r p (ap (λ x. round_bytes x r p) at ∙ round_bytes-no_body r p short)

chunk-Waits :
    (r : RequestReader) (p d : Bytes) (b : ℕ)
    → r.phase ≡ chunk_data
    → r.chunk_bytes + crlf_size ≡ length (p ++ b ∷ d)
    → Waits r p
chunk-Waits r p d b at e = round-Waits r p (
    ap (λ x. round_bytes x r p) at
    ∙ round_bytes-no_chunk r p (omega (arith, e, length-append p (b ∷ d))))

behind_chunk-Waits :
    (r q : RequestReader) (c p : Bytes)
    → r.phase ≡ chunk_data
    → r.chunk_bytes + crlf_size ≡ length c
    → read_chunk (blank r) (empty_reader, some c) ≡ go_on q
    → Waits q p
    → Waits r (c ++ p)
unfolding rounds_bytes
behind_chunk-Waits r q c p at b e (k, after, left, f) =
    let step = round_bytes-chunk r c p b in
    (
      suc k,
      after,
      left,
      ap (resume k) (ap (λ x. round_bytes x r (c ++ p)) at ∙ step ∙ ap (λ (o : Outcome). (o, p)) e)
          ∙ f,
    )

-- A round that reads a line, and what waits behind it.
behind-Waits :
    (r q : RequestReader) (l p : Bytes)
    → takes_line r.phase ≡ true
    → find_crlf l ≡ none
    → length l < max_line_length
    → charge_line (blank r) l ≡ go_on q
    → Waits q p
    → Waits r (l ++ (crlf ++ p))
unfolding rounds_bytes
behind-Waits r q l p h n c e (k, after, left, f) =
    let step = round_bytes-line r.phase r l p h n (omega (arith, c)) in
    (suc k, after, left, ap (resume k) (step ∙ ap (λ (o : Outcome). (o, p)) e) ∙ f)

pub no_crlf-nil : find_crlf [] ≡ none
unfolding find_crlf
no_crlf-nil = refl

right_nil : (d t : Bytes) → [] ≡ d ++ t → t ≡ []
right_nil [] t e = sym e
right_nil (x ∷ d) t e = absurd (cc)

length-rest : (p t : Bytes) → t ≢ [] → length p < length (p ++ t)
length-rest p [] ne = absurd (ne refl)
length-rest p (x ∷ t) ne = omega (arith, length-append p (x ∷ t))

-- With less than the whole text, the reader waits.
pub Reads-Waits :
    {r : RequestReader} {s : Bytes} {x : Request}
    → Reads r s x
    → (p t : Bytes) → t ≢ []
    → p ++ t ≡ s
    → Waits r p
Reads-Waits (whole_line {r} {q} l s {x} h n c e more) p t ne cut =
    elim (append-cases p t (l ++ crlf) s (cut ∙ sym (append_assoc l crlf s))) [
      | inl (b, d, f) ↦ line-Waits r l p d b h n c f
      | inr (d, f, g) ↦
          subst (Waits r) (sym (f ∙ append_assoc l crlf d))
            (behind-Waits r q l d h n c e (Reads-Waits more d t ne (sym g)))
    ]
Reads-Waits (last_line {r} {x} chunk h e) p t ne cut = elim (append-cases p t crlf [] cut) [
  | inl (b, d, f) ↦ line-Waits r [] p d b h no_crlf-nil (omega arith) f
  | inr (d, f, g) ↦ absurd (ne (right_nil d t g))
]
Reads-Waits (body_bytes {r} s {x} chunk at b e) p t ne cut =
    body-Waits r p at (omega (arith, b, ap length cut, length-rest p t ne))
Reads-Waits (whole_chunk {r} {q} c s {x} at b e more) p t ne cut = elim (append-cases p t c s cut) [
  | inl (y, d, f) ↦ chunk-Waits r p d y at (b ∙ ap length f)
  | inr (d, f, g) ↦
      subst (Waits r) (sym f) (behind_chunk-Waits r q c d at b e (Reads-Waits more d t ne (sym g)))
]
