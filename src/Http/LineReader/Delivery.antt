-- ===== src/Http/LineReader/Delivery.antt =====
-- What `next_line` hands out, for a line, its terminator, and what follows them.
use carafe.Base.{
  suc, ◌+◌, ◌≤◌, ◌<◌, none, [], ◌∷◌, ◌++◌, ◌≡◌, refl, ◌∙◌, arith, le→ltb, lt→ltb, Bytes, length,
  drop, length-append, take-append_length, append_assoc,
}
use carafe.Http.LineReader.{
  LineReader, line_too_long, line, find_crlf, crlf, max_line_length, append, next_line,
}
use carafe.Http.LineReader.Scan.{find_crlf-append_crlf}
use carafe.Http.LineReader.Refinement.{
  IsValid, pending, read_line, next_line-read_line, append-pending,
}

drop-line : (l rest : Bytes) → drop (length l + 2) (l ++ (crlf ++ rest)) ≡ rest
drop-line [] rest = refl
drop-line (x ∷ l) rest =
    let e : suc (length l) + 2 ≡ suc (length l + 2) = omega arith in rw e (drop-line l rest)

pub read_line-delivers :
    (l rest : Bytes)
    → find_crlf l ≡ none
    → length l ≤ max_line_length
    → read_line (l ++ (crlf ++ rest)) ≡ (rest, line l)
unfolding read_line
read_line-delivers l rest n h = rw (
  find_crlf-append_crlf l rest n,
  read_line,
  le→ltb max_line_length (length l) h,
  drop-line l rest,
  take-append_length l (crlf ++ rest),
)

-- If the bytes of a valid reader are a line that holds no CRLF and is no longer than the cap, a
-- CRLF, and any rest, then `next_line` hands out exactly that line and leaves exactly that rest.
pub next_line_delivers :
    (r : LineReader) (l rest : Bytes)
    → IsValid r
    → pending r ≡ l ++ (crlf ++ rest)
    → find_crlf l ≡ none
    → length l ≤ max_line_length
    → ((next_line r).1 ≡ line l) × (pending (next_line r).0 ≡ rest)
next_line_delivers r l rest v e n h =
    let (w, p, a) = next_line-read_line r v in
    let d = read_line-delivers l rest n h in (a ∙ rw (e, d) refl, p ∙ rw (e, d) refl)

find_crlf-concat_cr : (l : Bytes) → find_crlf l ≡ none → find_crlf (l ++ b'\r' ∷ []) ≡ none
unfolding find_crlf
find_crlf-concat_cr [] n = refl
find_crlf-concat_cr (x ∷ []) n = ground arith
find_crlf-concat_cr (x ∷ y ∷ l) n = ground (arith, find_crlf-concat_cr (y ∷ l))

read_line_too_long :
    (p : Bytes) → find_crlf p ≡ none → max_line_length < length p → read_line p ≡ (p, line_too_long)
unfolding read_line
read_line_too_long p n h = rw (n, read_line, lt→ltb max_line_length (length p) h)

-- If the bytes of a valid reader are a line with no CRLF, of exactly the length of the cap, and a
-- CR, then `next_line` reports the line as too long, although after an append of the LF it hands
-- the line out.
pub next_line_split_terminator :
    (r : LineReader) (l : Bytes)
    → IsValid r
    → pending r ≡ l ++ b'\r' ∷ []
    → find_crlf l ≡ none
    → length l ≡ max_line_length
    → ((next_line r).1 ≡ line_too_long) × ((next_line (append r (b'\n' ∷ []))).1 ≡ line l)
next_line_split_terminator r l v e n h =
    let (w, p, a) = next_line-read_line r v in
    let (w', p') = append-pending r (b'\n' ∷ []) v in
    let long =
      read_line_too_long (l ++ b'\r' ∷ []) (find_crlf-concat_cr l n)
        (omega (arith, length-append l (b'\r' ∷ []))) in
    (
      a ∙ rw (e, long) refl,
      (next_line_delivers (append r (b'\n' ∷ [])) l [] w' (p' ∙ rw (e, append_assoc) refl) n
          (omega arith)).0,
    )
