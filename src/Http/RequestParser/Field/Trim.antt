-- ===== src/Http/RequestParser/Field/Trim.antt =====
-- The two scans that trim a field's value: what they take off, and what they leave.
use carafe.Base.{
  All, ℕ, Bool, true, false, ◌&&◌, [], ◌∷◌, ◌++◌, ◌≡◌, refl, ap, ◌∙◌, inl, inr, arith, Bool-cases,
  Bytes, if◌then◌else◌,
}
use carafe.Http.RequestParser.{
  is_ows, skip_ows, drop_trailing_ows, trim_ows, is_valid_value_char, all_valid_value_chars,
}

abbrev pub opens_with_ows : Bytes → Bool
opens_with_ows [] = false
opens_with_ows (c ∷ s) = is_ows c

abbrev pub ends_with_ows : Bytes → Bool
ends_with_ows [] = false
ends_with_ows (c ∷ []) = is_ows c
ends_with_ows (c ∷ d ∷ s) = ends_with_ows (d ∷ s)

abbrev pub AllOws : Bytes → Type 0
AllOws s = All (λ c. is_ows c ≡ true) s

-- `kept` is `text` without its optional whitespace.
pub record Trimming (text kept : Bytes) : Type 0 where
  pub before : Bytes
  pub after : Bytes
  pub text_is : text ≡ before ++ (kept ++ after)
  pub before_ows : AllOws before
  pub after_ows : AllOws after
  pub opens : opens_with_ows kept ≡ false
  pub ends : ends_with_ows kept ≡ false

skip_ows-split :
    (s : Bytes)
    → (b : Bytes) × (s ≡ b ++ skip_ows s) × AllOws b × (opens_with_ows (skip_ows s) ≡ false)
unfolding skip_ows
skip_ows-split [] = ([], refl, tt, refl)
skip_ows-split (c ∷ s) = elim (Bool-cases (is_ows c)) [
  | inl e ↦ let (b, p, a, o) = skip_ows-split s in rw (e, skip_ows) (c ∷ b, ap (◌∷◌ c) p, (e, a), o)
  | inr e ↦ rw (e, skip_ows) ([], refl, tt, e)
]

-- One step of the scan from the back, `t` being what it left of the bytes behind `c`.
abbrev step_back : ℕ → Bytes → Bytes
step_back c t = elim t [ [] ↦ if is_ows c then [] else c ∷ [] | d ∷ rest ↦ c ∷ d ∷ rest ]

step_back-split :
    (c : ℕ) (t b : Bytes)
    → AllOws b
    → ends_with_ows t ≡ false
    → (d : Bytes) × (c ∷ (t ++ b) ≡ step_back c t ++ d)
      × AllOws d
      × (ends_with_ows (step_back c t) ≡ false)
step_back-split c (d ∷ t) b a e = (b, refl, a, e)
step_back-split c [] b a e = elim (Bool-cases (is_ows c)) [
  | inl o ↦ rw o (c ∷ b, refl, (o, a), refl)
  | inr o ↦ rw o (b, refl, a, o)
]

drop_trailing_ows-split :
    (s : Bytes)
    → (b : Bytes) × (s ≡ drop_trailing_ows s ++ b)
      × AllOws b
      × (ends_with_ows (drop_trailing_ows s) ≡ false)
unfolding drop_trailing_ows
drop_trailing_ows-split [] = ([], refl, tt, refl)
drop_trailing_ows-split (c ∷ s) =
    let (b, p, a, e) = drop_trailing_ows-split s in
    let (d, q, o, f) = step_back-split c (drop_trailing_ows s) b a e in (d, ap (◌∷◌ c) p ∙ q, o, f)

opens-step_back : (c : ℕ) (t : Bytes) → is_ows c ≡ false → opens_with_ows (step_back c t) ≡ false
opens-step_back c [] e = rw e e
opens-step_back c (d ∷ t) e = e

opens-drop_trailing_ows :
    (s : Bytes) → opens_with_ows s ≡ false → opens_with_ows (drop_trailing_ows s) ≡ false
unfolding drop_trailing_ows
opens-drop_trailing_ows [] e = refl
opens-drop_trailing_ows (c ∷ s) e = opens-step_back c (drop_trailing_ows s) e

pub trim_ows-Trimming : (s : Bytes) → Trimming s (trim_ows s)
trim_ows-Trimming s =
    let (b, p, a, o) = skip_ows-split s in
    let (d, q, z, e) = drop_trailing_ows-split (skip_ows s) in
    record {
      before = b;
      after = d;
      text_is = p ∙ ap (◌++◌ b) q;
      before_ows = a;
      after_ows = z;
      opens = opens-drop_trailing_ows (skip_ows s) o;
      ends = e;
    }

skip_ows-before : (b s : Bytes) → AllOws b → skip_ows (b ++ s) ≡ skip_ows s
unfolding skip_ows
skip_ows-before [] s a = refl
skip_ows-before (c ∷ b) s (o, a) = rw (o, skip_ows) (skip_ows-before b s a)

drop_trailing_ows-AllOws : (b : Bytes) → AllOws b → drop_trailing_ows b ≡ []
unfolding drop_trailing_ows
drop_trailing_ows-AllOws [] a = refl
drop_trailing_ows-AllOws (c ∷ b) (o, a) = rw (drop_trailing_ows-AllOws b a, o)

drop_trailing_ows-behind :
    (s b : Bytes) → AllOws b → ends_with_ows s ≡ false → drop_trailing_ows (s ++ b) ≡ s
unfolding drop_trailing_ows
drop_trailing_ows-behind [] b a e = drop_trailing_ows-AllOws b a
drop_trailing_ows-behind (c ∷ []) b a e = rw (drop_trailing_ows-AllOws b a, e)
drop_trailing_ows-behind (c ∷ d ∷ s) b a e =
    ap (step_back c) (drop_trailing_ows-behind (d ∷ s) b a e)

trim_ows-AllOws : (b : Bytes) → AllOws b → trim_ows b ≡ []
unfolding skip_ows drop_trailing_ows
trim_ows-AllOws [] a = refl
trim_ows-AllOws (c ∷ b) (o, a) = rw (o, skip_ows) (trim_ows-AllOws b a)

trim_ows-opened :
    (s b : Bytes)
    → opens_with_ows s ≡ false
    → ends_with_ows s ≡ false
    → AllOws b
    → trim_ows (s ++ b) ≡ s
unfolding skip_ows
trim_ows-opened (c ∷ s) b o e a = rw (o, skip_ows) (drop_trailing_ows-behind (c ∷ s) b a e)
trim_ows-opened [] b o e a = trim_ows-AllOws b a

pub trim_ows-spaced : {s k : Bytes} → Trimming s k → trim_ows s ≡ k
trim_ows-spaced {s} {k} t =
    ap trim_ows t.text_is
    ∙ ap drop_trailing_ows (skip_ows-before t.before (k ++ t.after) t.before_ows)
    ∙ trim_ows-opened k t.after t.opens t.ends t.after_ows

pub all_valid-append :
    (a b : Bytes)
    → all_valid_value_chars (a ++ b) ≡ all_valid_value_chars a && all_valid_value_chars b
unfolding all_valid_value_chars
all_valid-append [] b = refl
all_valid-append (c ∷ a) b = ground (arith, all_valid-append a b)

pub all_valid-AllOws : (b : Bytes) → AllOws b → all_valid_value_chars b ≡ true
unfolding all_valid_value_chars is_valid_value_char
all_valid-AllOws [] a = refl
all_valid-AllOws (c ∷ b) (o, a) = ground (arith, all_valid-AllOws b a)

-- The scans look for whitespace only, so a text is valid where what is left of it is.
pub all_valid-Trimming :
    {s k : Bytes} → Trimming s k → all_valid_value_chars s ≡ all_valid_value_chars k
all_valid-Trimming {s} {k} t = ground (
  arith,
  t.text_is,
  all_valid-append t.before (k ++ t.after),
  all_valid-append k t.after,
  all_valid-AllOws t.before t.before_ows,
  all_valid-AllOws t.after t.after_ows,
)
