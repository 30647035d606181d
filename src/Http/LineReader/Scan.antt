-- ===== src/Http/LineReader/Scan.antt =====
-- The search for a terminator, and what a search that failed lets the next one skip.
use mathlib.Core.Option
use carafe.Base.{
  ℕ, zero, suc, ◌+◌, ◌≤◌, ◌<◌, Bool, false, ◌&&◌, none, some, [], ◌∷◌, ◌++◌, ◌≡◌, refl, ap, inl,
  inr, arith, ◌==◌, if◌then◌else◌, Option-cases, Bytes, length, drop,
}
use carafe.Http.LineReader.{find_crlf, crlf}

abbrev pub starts_crlf : Bytes → Bool
starts_crlf [] = false
starts_crlf (c ∷ []) = false
starts_crlf (c ∷ d ∷ s) = c == b'\r' && d == b'\n'

abbrev pub tail : Bytes → Bytes
tail [] = []
tail (c ∷ s) = s

-- No terminator starts at one of the first `k` bytes.
abbrev pub Clear : ℕ → Bytes → Type 0
Clear zero s = Unit
Clear (suc k) s = (starts_crlf s ≡ false) × Clear k (tail s)

pub find_crlf-cons :
    (c : ℕ) (s : Bytes)
    → find_crlf (c ∷ s) ≡ (if starts_crlf (c ∷ s) then some 0 else Option.map suc (find_crlf s))
unfolding find_crlf
find_crlf-cons c [] = refl
find_crlf-cons c (d ∷ s) = refl

pub find_crlf_skip :
    (k : ℕ) (s : Bytes)
    → Clear k s
    → k ≤ length s
    → find_crlf s ≡ Option.map (λ i. k + i) (find_crlf (drop k s))
find_crlf_skip zero s c h = elim (Option-cases (find_crlf s)) [
  | inl e ↦ rw e
  | inr (i, e) ↦ rw e (ap some (omega arith))
]
find_crlf_skip (suc k) [] c h = absurd (omega arith)
find_crlf_skip (suc k) (x ∷ s) c h =
    rw (find_crlf-cons x s, c.0, find_crlf_skip k s c.1 (omega arith))
      (elim (Option-cases (find_crlf (drop k s))) [
        | inl e ↦ rw e
        | inr (i, e) ↦ rw e (ap some (omega arith))
      ])

-- A search that failed has cleared all but the last byte, whatever arrives behind it.
find_crlf-cons_none :
    (c : ℕ) (s : Bytes)
    → find_crlf (c ∷ s) ≡ none
    → (starts_crlf (c ∷ s) ≡ false) × (find_crlf s ≡ none)
find_crlf-cons_none c s e = ground (arith, find_crlf-cons c s)

pub find_crlf-none-Clear :
    (s t : Bytes) (k : ℕ) → find_crlf s ≡ none → k < length s → Clear k (s ++ t)
find_crlf-none-Clear s t zero e h = tt
find_crlf-none-Clear [] t (suc k) e h = absurd (omega arith)
find_crlf-none-Clear (x ∷ []) t (suc k) e h = absurd (omega arith)
find_crlf-none-Clear (x ∷ y ∷ s) t (suc k) e h =
    let (first, later) = find_crlf-cons_none x (y ∷ s) e in
    (first, find_crlf-none-Clear (y ∷ s) t k later (omega arith))

pub Clear-append : (k : ℕ) (s t : Bytes) → Clear k s → k < length s → Clear k (s ++ t)
Clear-append zero s t c h = tt
Clear-append (suc k) [] t c h = absurd (omega arith)
Clear-append (suc k) (x ∷ []) t c h = absurd (omega arith)
Clear-append (suc k) (x ∷ y ∷ s) t c h = (c.0, Clear-append k (y ∷ s) t c.1 (omega arith))

-- The first terminator of `l` and CRLF is the one behind `l`, if `l` holds none.
pub find_crlf-append_crlf :
    (l rest : Bytes) → find_crlf l ≡ none → find_crlf (l ++ (crlf ++ rest)) ≡ some (length l)
find_crlf-append_crlf [] rest e = rw find_crlf-cons
find_crlf-append_crlf (x ∷ []) rest e =
    ground (arith, find_crlf-cons x (crlf ++ rest), find_crlf-cons b'\r' (b'\n' ∷ rest))
find_crlf-append_crlf (x ∷ y ∷ l) rest e =
    let (first, later) = find_crlf-cons_none x (y ∷ l) e in
    rw (
      find_crlf-cons x (y ∷ (l ++ (crlf ++ rest))),
      first,
      find_crlf-append_crlf (y ∷ l) rest later,
    )

-- A terminator that was found stays the first when more bytes arrive.
pub find_crlf-append : (s t : Bytes) (i : ℕ) → find_crlf s ≡ some i → find_crlf (s ++ t) ≡ some i
unfolding find_crlf
find_crlf-append [] t i e = cc
find_crlf-append (x ∷ []) t i e = cc
find_crlf-append (x ∷ y ∷ s) t zero e = ground arith
find_crlf-append (x ∷ y ∷ s) t (suc i) e = ground (arith, find_crlf-append (y ∷ s) t i)

-- Both bytes of the terminator lie inside the text.
pub find_crlf_bound : (s : Bytes) (i : ℕ) → find_crlf s ≡ some i → i + 2 ≤ length s
unfolding find_crlf
find_crlf_bound [] i e = cc
find_crlf_bound (x ∷ []) i e = cc
find_crlf_bound (x ∷ y ∷ s) zero e = omega arith
find_crlf_bound (x ∷ y ∷ s) (suc i) e = ground (arith, find_crlf_bound (y ∷ s) i)
