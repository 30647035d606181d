-- ===== src/Http/LineReader.antt =====
-- src/http/line_reader.hpp and src/http/line_reader.cpp: a buffer over a byte stream. The views that
-- the source hands out are values here; `begin_` and `scanned_` are the offsets of the source.
pub mod Scan
pub mod Refinement
pub mod History
pub mod Delivery
mod Tests
use carafe.Base.{
  ℕ, suc, ◌+◌, ◌-◌, ◌*◌, min, Bool, true, false, ◌&&◌, Option, none, some, [], ◌∷◌, ◌++◌, ltb, leb,
  ◌==◌, if◌then◌else◌, Bytes, length, drop, substr,
}
use mathlib.Core.Option

abbrev pub max_line_length : ℕ
max_line_length = 8192

abbrev pub crlf : Bytes
crlf = b'\r' ∷ b'\n' ∷ []

pub record LineReader : Type 0 where
  pub buffer : Bytes
  pub begin : ℕ
  pub scanned : ℕ

pub data LineResult : Type 0 where
  line_too_long : LineResult
  no_line : LineResult
  line : Bytes → LineResult

-- `s.find(crlf)`
unfoldable pub find_crlf : Bytes → Option ℕ
find_crlf [] = none
find_crlf (c ∷ []) = none
find_crlf (c ∷ d ∷ s) =
    if c == b'\r' && d == b'\n' then some 0 else Option.map suc (find_crlf (d ∷ s))

-- `s.find(crlf, pos)`
pub find_crlf_from : Bytes → ℕ → Option ℕ
find_crlf_from s pos = Option.map (λ i. pos + i) (find_crlf (drop pos s))

abbrev pub empty_reader : LineReader
empty_reader = record { buffer = []; begin = 0; scanned = 0 }

-- The head of `append`: the dead prefix is dropped once it outweighs what is left.
compact : LineReader → LineReader
compact r =
    if ltb 0 r.begin && leb (length r.buffer) (r.begin * 2)
    then record { buffer = drop r.begin r.buffer; begin = 0; scanned = r.scanned - r.begin }
    else r

unfoldable pub append : LineReader → Bytes → LineReader
unfolding compact
append r bytes = let c = compact r in record c { buffer = c.buffer ++ bytes }

-- No terminator: the cap, then the place where the next search resumes (`lookback` is 1).
no_terminator : LineReader → LineReader × LineResult
no_terminator r =
    if ltb max_line_length (length r.buffer - r.begin)
    then (r, line_too_long)
    else if ltb (length r.buffer) (r.begin + 1)
    then (record r { scanned = r.begin }, no_line)
    else (record r { scanned = length r.buffer - 1 }, no_line)

terminator_at : LineReader → ℕ → LineReader × LineResult
terminator_at r crlf_pos =
    if ltb max_line_length (crlf_pos - r.begin) then (r, line_too_long) else (
      record r { begin = crlf_pos + 2; scanned = crlf_pos + 2 },
      line (substr r.buffer r.begin (crlf_pos - r.begin)),
    )

unfoldable pub next_line : LineReader → LineReader × LineResult
unfolding find_crlf find_crlf_from no_terminator terminator_at
next_line r = elim (find_crlf_from r.buffer r.scanned) [
  | none ↦ no_terminator r
  | some crlf_pos ↦ terminator_at r crlf_pos
]

unfoldable pub take : LineReader → ℕ → LineReader × Option Bytes
take r n =
    if ltb (length r.buffer - r.begin) n
    then (r, none)
    else (record r { begin = r.begin + n; scanned = r.begin + n }, some (substr r.buffer r.begin n))

-- The new reader, and how many bytes were dropped.
unfoldable pub discard : LineReader → ℕ → LineReader × ℕ
discard r n =
    let dropped = min n (length r.buffer - r.begin) in
    (record r { begin = r.begin + dropped; scanned = r.begin + dropped }, dropped)
