-- ===== src/Server/Pattern/Decode.antt =====
-- `percent_decode` of src/server/router.cpp on paths whose escapes are in normal form.
use carafe.Base.{
  ℕ, ◌<◌, ◌≤◌, true, false, [], ◌∷◌, ◌++◌, map, ◌≡◌, refl, sym, ap, ◌∙◌, inl, inr, arith, ◌==◌,
  Bytes, codes, equal, equal_iff, Bool-cases, All, subst,
}
use carafe.Http.Ascii.{ascii_hex_digit, ascii_unreserved}
use carafe.Http.Path.{escape, escaped_byte, segments, prepend}
use carafe.Http.Path.Escapes.{Resolved, done, plain, escaped, escape-digits, digit_not_slash}
use carafe.Http.Path.Segments.{NoSlash, split, segments-append}
use carafe.Http.Path.Dots.{IsPlain}
use carafe.Server.Pattern.{percent_decode, count_slashes}

decode-plain :
    (c : ℕ) (s : Bytes) → (c == b'%') ≡ false → percent_decode (c ∷ s) ≡ c ∷ percent_decode s
unfolding percent_decode escape
decode-plain c [] n = refl
decode-plain c (d ∷ []) n = refl
decode-plain c (d ∷ e ∷ s) n = rw (n, percent_decode) refl

decode-escaped :
    (high low : ℕ) (s : Bytes)
    → high < 16
    → low < 16
    → percent_decode (b'%' ∷ ascii_hex_digit high ∷ ascii_hex_digit low ∷ s)
      ≡ escaped_byte high low ∷ percent_decode s
unfolding percent_decode
decode-escaped high low s h l = rw (escape-digits high low h l, percent_decode) refl

count-escape :
    (high low : ℕ) (s : Bytes)
    → high < 16
    → low < 16
    → count_slashes (b'%' ∷ ascii_hex_digit high ∷ ascii_hex_digit low ∷ s) ≡ count_slashes s
unfolding count_slashes
count-escape high low s h l = rw (digit_not_slash high h, digit_not_slash low l) (omega arith)

-- Decoding never takes a slash away.
count-decode : {s : Bytes} → Resolved s → count_slashes s ≤ count_slashes (percent_decode s)
unfolding count_slashes
count-decode done = unfold percent_decode in omega arith
count-decode (plain c s n r) = rw (decode-plain c s n) (omega (arith, count-decode r))
count-decode (escaped {s} high low h l n r) =
    rw (decode-escaped high low s h l, count-escape high low s h l) (omega (arith, count-decode r))

count_tail :
    (c : ℕ) (a b : Bytes)
    → count_slashes (c ∷ a) ≡ count_slashes (c ∷ b)
    → count_slashes a ≡ count_slashes b
unfolding count_slashes
count_tail c a b e = omega (arith, e)

segments-cons :
    (c : ℕ) (s : Bytes) → (c == b'/') ≡ false → segments (c ∷ s) ≡ (c ∷ (split s).0) ∷ (split s).1
segments-cons c s n = segments-append (c ∷ []) s (n, tt)

-- Bytes that decode to one byte, in front of a path.
front_decode :
    (c : ℕ) (f s d : Bytes)
    → NoSlash f
    → (c == b'/') ≡ false
    → ((x : Bytes) → percent_decode (f ++ x) ≡ c ∷ percent_decode x)
    → segments d ≡ map percent_decode (segments s)
    → segments (c ∷ d) ≡ map percent_decode (segments (f ++ s))
front_decode c f s d nf nc de ih =
    let (x, xs, ex) = split s in
    let (y, ys, ey) = split d in
    let both : y ∷ ys ≡ percent_decode x ∷ map percent_decode xs =
      sym ey ∙ ih ∙ ap (map percent_decode) ex in
    segments-cons c d nc
    ∙ ap (prepend c) both
    ∙ ap (λ z. z ∷ map percent_decode xs) (sym (de x))
    ∙ ap (map percent_decode) (sym (segments-append f s nf))

slash_decode :
    (c : ℕ) (s d : Bytes)
    → (c == b'/') ≡ true
    → segments d ≡ map percent_decode (segments s)
    → segments (c ∷ d) ≡ map percent_decode (segments (c ∷ s))
unfolding segments percent_decode
slash_decode c s d slash ih = rw slash (ap (◌∷◌ []) ih)

escaped_not_slash :
    (high low : ℕ) (s : Bytes)
    → high < 16
    → low < 16
    → Resolved s
    → count_slashes (percent_decode (b'%' ∷ ascii_hex_digit high ∷ ascii_hex_digit low ∷ s))
      ≡ count_slashes (b'%' ∷ ascii_hex_digit high ∷ ascii_hex_digit low ∷ s)
    → ((escaped_byte high low == b'/') ≡ false)
      × (count_slashes (percent_decode s) ≡ count_slashes s)
unfolding count_slashes
escaped_not_slash high low s h l r e =
    let f = rw (decode-escaped high low s h l, count-escape high low s h l) at e in
    let fewer = count-decode r in
    elim (Bool-cases (escaped_byte high low == b'/')) [
      | inl slash ↦ let g = rw slash at f in absurd (omega (arith, g, fewer))
      | inr other ↦ let g = rw other at f in (other, omega (arith, g))
    ]

-- If it adds none either, the segments are decoded one by one.
pub segments-decode :
    {s : Bytes}
    → Resolved s
    → count_slashes (percent_decode s) ≡ count_slashes s
    → segments (percent_decode s) ≡ map percent_decode (segments s)
segments-decode done e = unfold percent_decode segments in refl
segments-decode (plain c s n r) e =
    let f = rw (decode-plain c s n) at e in
    let ih = segments-decode r (count_tail c (percent_decode s) s f) in
    rw (decode-plain c s n) (elim (Bool-cases (c == b'/')) [
      | inl slash ↦ slash_decode c s (percent_decode s) slash ih
      | inr other ↦
          front_decode c (c ∷ []) s (percent_decode s) (other, tt) other (λ x. decode-plain c x n)
            ih
    ])
segments-decode (escaped {s} high low h l n r) e =
    let (other, f) = escaped_not_slash high low s h l r e in
    rw (decode-escaped high low s h l) (
      front_decode (escaped_byte high low) (b'%' ∷ ascii_hex_digit high ∷ ascii_hex_digit low ∷ [])
        s (percent_decode s) (refl, (digit_not_slash high h, (digit_not_slash low l, tt))) other
        (λ x. decode-escaped high low x h l) (segments-decode r f))

-- Text of unreserved bytes was not escaped.
decode_unreserved :
    {s : Bytes}
    → Resolved s
    → All (λ c. ascii_unreserved c ≡ true) (percent_decode s)
    → percent_decode s ≡ s
decode_unreserved done a = unfold percent_decode in refl
decode_unreserved (plain c s n r) a =
    let (first, later) = rw (decode-plain c s n) at a in
    decode-plain c s n ∙ ap (◌∷◌ c) (decode_unreserved r later)
decode_unreserved (escaped {s} high low h l n r) a =
    let (first, later) = rw (decode-escaped high low s h l) at a in absurd (ground arith)

not_dots :
    {s : Bytes} (dots : Bytes)
    → Resolved s
    → All (λ c. ascii_unreserved c ≡ true) dots
    → equal s dots ≡ false
    → equal (percent_decode s) dots ≡ false
not_dots {s} dots r u n = elim (Bool-cases (equal (percent_decode s) dots)) [
  | inr other ↦ other
  | inl same ↦
      let e = (equal_iff (percent_decode s) dots).0 same in
      let f = decode_unreserved r (subst (All (λ c. ascii_unreserved c ≡ true)) (sym e) u) in
      let g : equal s dots ≡ true = (equal_iff s dots).1 (sym f ∙ e) in absurd (cc)
]

-- A segment that is not a dot segment does not become one.
pub decode-IsPlain : (s : Bytes) → Resolved s × IsPlain s → IsPlain (percent_decode s)
unfolding ascii_unreserved
decode-IsPlain s (r, (one, two)) =
    (not_dots (codes ".") r (refl, tt) one, not_dots (codes "..") r (refl, (refl, tt)) two)
