-- ===== src/Http/Response/Decimal.antt =====
-- `std::to_string`, which src/http/response.cpp calls, writes the number that the digits of a
-- Content-Length are read as.
use carafe.Base.{
  ℕ, zero, suc, ◌+◌, ◌-◌, ◌*◌, ◌/◌, ◌%◌, ◌≤◌, ◌<◌, true, false, [], ◌∷◌, ◌++◌, ◌≡◌, refl, ◌∙◌, inl,
  inr, arith, ltb, Bytes, Bool-cases, All, All-append, length, length-append, sym, ap, ◌≢◌,
}
use carafe.Http.Framing.{max_drain_bytes, length_is, parse_content_length}
use carafe.Http.Framing.Digits.{decimal, IsDigit, parse_content_length_iff}
use carafe.Http.Response.{digits, to_string}

decimal-append : (s t : Bytes) (n : ℕ) → decimal n (s ++ t) ≡ decimal (decimal n s) t
unfolding decimal
decimal-append [] t n = refl
decimal-append (c ∷ s) t n = decimal-append s t (n * 10 + (c - b'0'))

digits_small : (rounds n : ℕ) → ltb n 10 ≡ true → digits (suc rounds) n ≡ (b'0' + n) ∷ []
unfolding digits
digits_small rounds n h = rw (h, digits) refl

digits_big :
    (rounds n : ℕ)
    → ltb n 10 ≡ false
    → digits (suc rounds) n ≡ digits rounds (n / 10) ++ (b'0' + n % 10) ∷ []
unfolding digits
digits_big rounds n h = rw (h, digits) refl

decimal-digits : (rounds n : ℕ) → n < rounds → decimal 0 (digits rounds n) ≡ n
decimal-digits zero n h = absurd (omega arith)
decimal-digits (suc rounds) n h = elim (Bool-cases (ltb n 10)) [
  | inl small ↦ rw (digits_small rounds n small) (unfold decimal in ground arith)
  | inr big ↦
      let ten : 10 ≤ n = ground arith in
      let front = decimal-digits rounds (n / 10) (omega (arith, ten, h)) in
      rw
        (
          digits_big rounds n big,
          decimal-append (digits rounds (n / 10)) ((b'0' + n % 10) ∷ []) 0,
          front,
        )
        (unfold decimal in omega arith)
]

pub decimal-to_string : (n : ℕ) → decimal 0 (to_string n) ≡ n
unfolding to_string
decimal-to_string n = decimal-digits (suc n) n (omega arith)

digits-IsDigit : (rounds n : ℕ) → All IsDigit (digits rounds n)
digits-IsDigit zero n = unfold digits in tt
digits-IsDigit (suc rounds) n = elim (Bool-cases (ltb n 10)) [
  | inl small ↦ rw (digits_small rounds n small) ((omega arith, ground arith), tt)
  | inr big ↦ rw (digits_big rounds n big) (
      All-append IsDigit (digits rounds (n / 10)) ((b'0' + n % 10) ∷ [])
        (digits-IsDigit rounds (n / 10)) ((omega arith, omega arith), tt))
]

pub to_string-IsDigit : (n : ℕ) → All IsDigit (to_string n)
unfolding to_string
to_string-IsDigit n = digits-IsDigit (suc n) n

pub to_string_some : (n : ℕ) → to_string n ≢ []
unfolding to_string
to_string_some n e = elim (Bool-cases (ltb n 10)) [
  | inl small ↦ let f = sym (digits_small n n small) ∙ e in absurd (cc)
  | inr big ↦
      let f : length (digits n (n / 10) ++ (b'0' + n % 10) ∷ []) ≡ 0 =
        ap length (sym (digits_big n n big) ∙ e) in
      absurd (omega (arith, f, length-append (digits n (n / 10)) ((b'0' + n % 10) ∷ [])))
]

-- For a number up to `max_drain_bytes`, `parse_content_length` reads back what `to_string` writes.
pub parse_content_length-to_string :
    (n : ℕ) → n ≤ max_drain_bytes → parse_content_length (to_string n) ≡ length_is n
parse_content_length-to_string n h =
    (parse_content_length_iff (to_string n) n).1
      (to_string_some n, to_string-IsDigit n, decimal-to_string n, h)
