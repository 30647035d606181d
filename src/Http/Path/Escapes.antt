-- ===== src/Http/Path/Escapes.antt =====
-- `resolve_escapes` of src/http/path.cpp: the normal form of escapes, and that it is reached.
use carafe.Base.{
  ℕ, ◌<◌, true, false, some, List, [], ◌∷◌, ◌++◌, ◌≡◌, refl, sym, ap, ◌∙◌, inl, inr, arith, ◌==◌,
  Bytes, Bool-cases, Option-cases, All, ==_iff, subst,
}
use carafe.Http.Ascii.{ascii_hex_value, ascii_hex_digit, ascii_unreserved}
use carafe.Http.Path.{
  hex_pair, escape, escaped_byte, resolve_escape, resolve_escapes, segments, join,
}
use carafe.Http.Path.Segments.{NoSlash, segments-slash, segments-append, split}
use carafe.Http.RequestParser.{has_valid_escapes, is_hex_digit}

-- Every '%' starts an escape of a byte that is not unreserved, with its digits in upper case.
pub data Resolved : Bytes → Type 0 where
  done : Resolved []
  plain : (c : ℕ) (s : Bytes) → (c == b'%') ≡ false → Resolved s → Resolved (c ∷ s)
  escaped :
      {s : Bytes} (high low : ℕ)
      → high < 16
      → low < 16
      → ascii_unreserved (escaped_byte high low) ≡ false
      → Resolved s
      → Resolved (b'%' ∷ ascii_hex_digit high ∷ ascii_hex_digit low ∷ s)

hex_value-digit : (v : ℕ) → v < 16 → ascii_hex_value (ascii_hex_digit v) ≡ some v
unfolding ascii_hex_value ascii_hex_digit
hex_value-digit v h = ground arith

hex_value_small :
    (c : ℕ) → is_hex_digit c ≡ true → (v : ℕ) × (ascii_hex_value c ≡ some v) × (v < 16)
unfolding ascii_hex_value is_hex_digit
hex_value_small c h = elim (Option-cases (ascii_hex_value c)) [
  | inl n ↦ absurd (ground arith)
  | inr (v, e) ↦ (v, e, ground arith)
]

unreserved_not_percent : (c : ℕ) → ascii_unreserved c ≡ true → (c == b'%') ≡ false
unfolding ascii_unreserved
unreserved_not_percent c h = ground arith

pub digit_not_slash : (v : ℕ) → v < 16 → (ascii_hex_digit v == b'/') ≡ false
unfolding ascii_hex_digit
digit_not_slash v h = ground arith

resolve_escape-Resolved :
    (high low : ℕ) (s : Bytes)
    → high < 16
    → low < 16
    → Resolved s
    → Resolved (resolve_escape high low ++ s)
unfolding resolve_escape
resolve_escape-Resolved high low s h l r =
    elim (Bool-cases (ascii_unreserved (escaped_byte high low))) [
      | inl u ↦
          rw u
            (plain (escaped_byte high low) s (unreserved_not_percent (escaped_byte high low) u) r)
      | inr n ↦ rw n (escaped high low h l n r)
    ]

pub escape-digits :
    (high low : ℕ)
    → high < 16
    → low < 16
    → escape b'%' (ascii_hex_digit high) (ascii_hex_digit low) ≡ some (high, low)
unfolding escape hex_pair
escape-digits high low h l =
    rw (hex_value-digit high h, hex_value-digit low l, escape, hex_pair) refl

-- The head of a long enough path, by what stands there.
resolve_other :
    (c h l : ℕ) (path : Bytes)
    → (c == b'%') ≡ false
    → resolve_escapes (c ∷ h ∷ l ∷ path) ≡ c ∷ resolve_escapes (h ∷ l ∷ path)
unfolding resolve_escapes escape
resolve_other c h l path n = rw (n, resolve_escapes) refl

resolve_pair :
    (c h l high low : ℕ) (path : Bytes)
    → (c == b'%') ≡ true
    → ascii_hex_value h ≡ some high
    → ascii_hex_value l ≡ some low
    → resolve_escapes (c ∷ h ∷ l ∷ path) ≡ resolve_escape high low ++ resolve_escapes path
unfolding resolve_escapes escape hex_pair
resolve_pair c h l high low path p eh el = rw (p, eh, el, resolve_escapes) refl

pub resolve_escapes-Resolved :
    (path : Bytes) → has_valid_escapes path ≡ true → Resolved (resolve_escapes path)
unfolding has_valid_escapes resolve_escapes escape hex_pair
resolve_escapes-Resolved [] v = done
resolve_escapes-Resolved (c ∷ []) v = plain c [] (ground arith) done
resolve_escapes-Resolved (c ∷ d ∷ []) v =
    plain c (d ∷ []) (ground arith) (plain d [] (ground arith) done)
resolve_escapes-Resolved (c ∷ h ∷ l ∷ path) v = elim (Bool-cases (c == b'%')) [
  | inr other ↦
      let later = resolve_escapes-Resolved (h ∷ l ∷ path) (ground arith) in
      rw (resolve_other c h l path other) (plain c (resolve_escapes (h ∷ l ∷ path)) other later)
  | inl percent ↦
      let (high, eh, hh) = hex_value_small h (ground arith) in
      let (low, el, hl) = hex_value_small l (ground arith) in
      let later = resolve_escapes-Resolved path (ground arith) in
      rw (resolve_pair c h l high low path percent eh el)
        (resolve_escape-Resolved high low (resolve_escapes path) hh hl later)
]

pub Resolved-stable : {s : Bytes} → Resolved s → resolve_escapes s ≡ s
unfolding resolve_escapes escape hex_pair resolve_escape
Resolved-stable done = refl
Resolved-stable (plain c [] n r) = refl
Resolved-stable (plain c (d ∷ []) n r) = refl
Resolved-stable (plain c (d ∷ e ∷ s) n r) =
    resolve_other c d e s n ∙ (ap (◌∷◌ c) (Resolved-stable r))
Resolved-stable (escaped {s} high low h l n r) =
    resolve_pair b'%' (ascii_hex_digit high) (ascii_hex_digit low) high low s refl
      (hex_value-digit high h) (hex_value-digit low l)
    ∙ rw n (ap (λ t. b'%' ∷ ascii_hex_digit high ∷ ascii_hex_digit low ∷ t) (Resolved-stable r))

append-Resolved : {s t : Bytes} → Resolved s → Resolved t → Resolved (s ++ t)
append-Resolved done q = q
append-Resolved {t = t} (plain c s n r) q = plain c (s ++ t) n (append-Resolved r q)
append-Resolved (escaped high low h l n r) q = escaped high low h l n (append-Resolved r q)

pub join-Resolved : (xs : List Bytes) → All Resolved xs → Resolved (join xs)
unfolding join
join-Resolved [] a = done
join-Resolved (x ∷ []) (a, rest) = a
join-Resolved (x ∷ y ∷ xs) (a, rest) =
    append-Resolved a (plain b'/' (join (y ∷ xs)) refl (join-Resolved (y ∷ xs) rest))

front-Resolved :
    (s path : Bytes)
    → NoSlash s
    → Resolved s
    → All Resolved (segments path)
    → All Resolved (segments (s ++ path))
front-Resolved s path n r a =
    let (x, xs, e) = split path in
    let (first, rest) = rw e at a in rw (segments-append s path n) (append-Resolved r first, rest)

pub segments-Resolved : {s : Bytes} → Resolved s → All Resolved (segments s)
segments-Resolved done = unfold segments in (done, tt)
segments-Resolved (plain c s n r) = elim (Bool-cases (c == b'/')) [
  | inl slash ↦
      let same : b'/' ≡ c = sym ((==_iff c b'/').0 slash) in
      subst (λ d. All Resolved (segments (d ∷ s))) same
        (rw (segments-slash [] s tt) (done, segments-Resolved r))
  | inr other ↦ front-Resolved (c ∷ []) s (other, tt) (plain c [] n done) (segments-Resolved r)
]
segments-Resolved (escaped {s} high low h l n r) =
    front-Resolved (b'%' ∷ ascii_hex_digit high ∷ ascii_hex_digit low ∷ []) s
      (refl, (digit_not_slash high h, (digit_not_slash low l, tt))) (escaped high low h l n done)
      (segments-Resolved r)
