-- ===== src/Http/LineReader/Refinement.antt =====
-- A `LineReader` stands for the bytes that it has not handed out. `begin_`, `scanned_` and compaction
-- only save work: each operation does to those bytes what a reader with no offsets would do.
use mathlib.Core.Option
use carafe.Base.{
  ℕ, ◌+◌, ◌-◌, ◌*◌, ◌≤◌, ◌<◌, min, ◌&&◌, Option, none, some, [], ◌++◌, ◌≡◌, refl, sym, ap, ◌⊎◌, inl,
  inr, arith, ltb, leb, if◌then◌else◌, Bool-cases, Option-cases, Bytes, ltb_false→le, length, take,
  drop, append-nil, length-drop, drop-drop, drop-append_le, length-append,
}
use carafe.Http.LineReader.{
  LineReader, LineResult, line_too_long, no_line, line, find_crlf, find_crlf_from, crlf,
  max_line_length, compact, append, no_terminator, terminator_at, next_line, discard,
}
use carafe.Http.LineReader
use carafe.Http.LineReader.Scan.{
  Clear, Clear-append, find_crlf_skip, find_crlf-none-Clear, find_crlf_bound,
}

-- The bytes that are buffered and not handed out.
abbrev pub pending : LineReader → Bytes
pending r = drop r.begin r.buffer

-- The offsets lie in the buffer, and no terminator starts between them.
pub record IsValid (r : LineReader) : Type 0 where
  pub cleared : ℕ
  pub begin_le : r.begin ≤ length r.buffer
  pub scanned_is : r.scanned ≡ r.begin + cleared
  pub cleared_lt : (cleared ≡ 0) ⊎ (cleared < length (pending r))
  pub clear : Clear cleared (pending r)

-- What a reader does that searches all that is pending each time.
unfoldable pub read_line : Bytes → Bytes × LineResult
read_line p = elim (find_crlf p) [
  | none ↦ (p, if ltb max_line_length (length p) then line_too_long else no_line)
  | some i ↦ if ltb max_line_length i then (p, line_too_long) else (drop (i + 2) p, line (take i p))
]

abbrev pub take_bytes : Bytes → ℕ → Bytes × Option Bytes
take_bytes p n = if ltb (length p) n then (p, none) else (drop n p, some (take n p))

abbrev pub discard_bytes : Bytes → ℕ → Bytes × ℕ
discard_bytes p n = (drop (min n (length p)) p, min n (length p))

-- A reader whose search starts afresh is valid.
fresh-IsValid :
    (r : LineReader) (n : ℕ)
    → r.begin + n ≤ length r.buffer
    → IsValid (record r { begin = r.begin + n; scanned = r.begin + n })
fresh-IsValid r n h = record {
  cleared = 0;
  begin_le = h;
  scanned_is = omega arith;
  cleared_lt = inl refl;
  clear = tt;
}

cleared_le : (r : LineReader) (v : IsValid r) → v.cleared ≤ length (pending r)
cleared_le r v = omega (arith, v.cleared_lt)

-- The resumed search finds what a search of all that is pending finds.
find_crlf_from-pending :
    (r : LineReader)
    → IsValid r
    → find_crlf_from r.buffer r.scanned ≡ Option.map (λ i. r.begin + i) (find_crlf (pending r))
unfolding find_crlf_from
find_crlf_from-pending r v = elim (Option-cases (find_crlf (drop v.cleared (pending r)))) [
  | inl e ↦ rw (
    v.scanned_is,
    ← drop-drop v.cleared r.begin r.buffer,
    find_crlf_skip v.cleared (pending r) v.clear (cleared_le r v),
    e,
  )
  | inr (i, e) ↦
      rw
        (
          v.scanned_is,
          ← drop-drop v.cleared r.begin r.buffer,
          find_crlf_skip v.cleared (pending r) v.clear (cleared_le r v),
          e,
        )
        (ap some (omega arith))
]

abbrev Refines : LineReader × LineResult → Bytes × LineResult → Type 0
Refines a b = IsValid a.0 × (pending a.0 ≡ b.0) × (a.1 ≡ b.1)

no_terminator-Refines :
    (r : LineReader)
    → IsValid r
    → find_crlf (pending r) ≡ none
    → Refines (no_terminator r) (read_line (pending r))
unfolding no_terminator read_line
no_terminator-Refines r v e =
    rw (e, read_line)
      (elim (Bool-cases (ltb max_line_length (length (pending r)))) [
        | inl long ↦ rw (← length-drop r.begin r.buffer, long) (v, refl, refl)
        | inr short ↦
            rw (← length-drop r.begin r.buffer, short)
              (elim (Bool-cases (ltb (length r.buffer) (r.begin + 1))) [
                | inl empty ↦ rw empty (
                  record {
                    cleared = 0;
                    begin_le = v.begin_le;
                    scanned_is = omega arith;
                    cleared_lt = inl refl;
                    clear = tt;
                  },
                  refl,
                  refl,
                )
                | inr full ↦ rw full (
                  record {
                    cleared = length (pending r) - 1;
                    begin_le = v.begin_le;
                    scanned_is =
                        omega
                          (arith, v.begin_le, length-drop r.begin r.buffer, ltb_false→le _ _ full);
                    cleared_lt =
                        inr (omega (arith, length-drop r.begin r.buffer, ltb_false→le _ _ full));
                    clear = rw append-nil at (
                        find_crlf-none-Clear (pending r) [] (length (pending r) - 1) e
                          (omega (arith, length-drop r.begin r.buffer, ltb_false→le _ _ full)));
                  },
                  refl,
                  refl,
                )
              ])
      ])

terminator_at-Refines :
    (r : LineReader) (i : ℕ)
    → IsValid r
    → find_crlf (pending r) ≡ some i
    → Refines (terminator_at r (r.begin + i)) (read_line (pending r))
unfolding terminator_at read_line
terminator_at-Refines r i v e =
    let d : r.begin + i - r.begin ≡ i = omega arith in
    let a : r.begin + i + 2 ≡ r.begin + (i + 2) = omega arith in
    rw (e, read_line, d, a)
      (elim (Bool-cases (ltb max_line_length i)) [
        | inl long ↦ rw long (v, refl, refl)
        | inr short ↦ rw short (
          fresh-IsValid r (i + 2) (
              omega
                (arith, v.begin_le, length-drop r.begin r.buffer, find_crlf_bound (pending r) i e)),
          sym (drop-drop (i + 2) r.begin r.buffer),
          refl,
        )
      ])

pub next_line-read_line :
    (r : LineReader)
    → IsValid r
    → IsValid (next_line r).0
      × (pending (next_line r).0 ≡ (read_line (pending r)).0)
      × ((next_line r).1 ≡ (read_line (pending r)).1)
unfolding next_line
next_line-read_line r v = elim (Option-cases (find_crlf (pending r))) [
  | inl e ↦ rw (find_crlf_from-pending r v, e, next_line) (no_terminator-Refines r v e)
  | inr (i, e) ↦ rw (find_crlf_from-pending r v, e, next_line) (terminator_at-Refines r i v e)
]

pub take-take_bytes :
    (r : LineReader) (n : ℕ)
    → IsValid r
    → IsValid (LineReader.take r n).0
      × (pending (LineReader.take r n).0 ≡ (take_bytes (pending r) n).0)
      × ((LineReader.take r n).1 ≡ (take_bytes (pending r) n).1)
unfolding LineReader.take
take-take_bytes r n v = elim (Bool-cases (ltb (length (pending r)) n)) [
  | inl short ↦ rw (short, LineReader.take, ← length-drop r.begin r.buffer, short) (v, refl, refl)
  | inr enough ↦
      rw (enough, LineReader.take, ← length-drop r.begin r.buffer, enough)
        (
          fresh-IsValid r n
              (omega (arith, v.begin_le, length-drop r.begin r.buffer, ltb_false→le _ _ enough)),
          sym (drop-drop n r.begin r.buffer),
          refl,
        )
]

pub discard-discard_bytes :
    (r : LineReader) (n : ℕ)
    → IsValid r
    → IsValid (discard r n).0
      × (pending (discard r n).0 ≡ (discard_bytes (pending r) n).0)
      × ((discard r n).1 ≡ (discard_bytes (pending r) n).1)
unfolding discard
discard-discard_bytes r n v = rw (← length-drop r.begin r.buffer) (
  fresh-IsValid r _ (omega (arith, v.begin_le, length-drop r.begin r.buffer)),
  sym (drop-drop _ r.begin r.buffer),
  refl,
)

compact-pending :
    (r : LineReader) → IsValid r → IsValid (compact r) × (pending (compact r) ≡ pending r)
unfolding compact
compact-pending r v = elim (Bool-cases (ltb 0 r.begin && leb (length r.buffer) (r.begin * 2))) [
  | inl dead ↦ rw dead (
    record {
      cleared = v.cleared;
      begin_le = omega arith;
      scanned_is = omega (arith, v.scanned_is);
      cleared_lt = v.cleared_lt;
      clear = v.clear;
    },
    refl,
  )
  | inr live ↦ rw live (v, refl)
]

extend-IsValid :
    (r : LineReader) (bytes : Bytes) → IsValid r → IsValid (record r { buffer = r.buffer ++ bytes })
extend-IsValid r bytes v = record {
  cleared = v.cleared;
  begin_le = omega (arith, v.begin_le, length-append r.buffer bytes);
  scanned_is = v.scanned_is;
  cleared_lt =
      rw (drop-append_le r.begin r.buffer bytes v.begin_le)
        (omega (arith, v.cleared_lt, length-append (pending r) bytes));
  clear = rw (drop-append_le r.begin r.buffer bytes v.begin_le) (elim v.cleared_lt [
    | inl z ↦ rw z tt
    | inr lt ↦ Clear-append v.cleared (pending r) bytes v.clear lt
  ]);
}

pub append-pending :
    (r : LineReader) (bytes : Bytes)
    → IsValid r
    → IsValid (append r bytes) × (pending (append r bytes) ≡ pending r ++ bytes)
unfolding append
append-pending r bytes v =
    let (c, p) = compact-pending r v in
    (
      extend-IsValid (compact r) bytes c,
      rw (drop-append_le (compact r).begin (compact r).buffer bytes c.begin_le, p),
    )
