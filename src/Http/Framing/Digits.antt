-- ===== src/Http/Framing/Digits.antt =====
-- The digit loops of src/http/request_reader.cpp against the numbers that the digits write.
use carafe.Base.{
  ℕ, ◌+◌, ◌-◌, ◌*◌, ◌%◌, ◌≤◌, ◌<◌, Option, none, some, [], ◌∷◌, ◌≡◌, ◌≢◌, ◌↔◌, inl, inr, arith, ltb,
  ltb_false→le, ◌==◌, within, if◌then◌else◌, Bytes, All, Bool-cases, Option-cases, length,
}
use carafe.Http.Ascii.{ascii_hex_value}
use carafe.Http.Framing.{
  malformed, body_too_large, max_body_bytes, max_drain_bytes, size_mod, length_failed, length_is,
  chunk_failed, chunk_is, content_length_digits, parse_content_length, chunk_size_digits,
  parse_chunk_size, without_extension,
}

-- The number that decimal digits write behind those read before.
unfoldable pub decimal : ℕ → Bytes → ℕ
decimal before [] = before
decimal before (digit ∷ value) = decimal (before * 10 + (digit - b'0')) value

abbrev pub IsDigit : ℕ → Type 0
IsDigit c = (b'0' ≤ c) × (c ≤ b'9')

no_wrap : (n : ℕ) → n < size_mod → n % size_mod ≡ n
no_wrap n h = omega arith

decimal_grows : (n : ℕ) (value : Bytes) → n ≤ decimal n value
unfolding decimal
decimal_grows n [] = omega arith
decimal_grows n (c ∷ value) = omega (arith, decimal_grows (n * 10 + (c - b'0')) value)

content_length_step :
    (m c : ℕ) (value : Bytes)
    → m ≤ max_drain_bytes
    → IsDigit c
    → content_length_digits m (c ∷ value) ≡ (
        if ltb max_drain_bytes (m * 10 + (c - b'0'))
        then length_failed body_too_large
        else content_length_digits (m * 10 + (c - b'0')) value)
unfolding content_length_digits
content_length_step m c value h (lo, hi) =
    let w = no_wrap (m * 10 + (c - b'0')) (omega arith) in rw w (ground arith)

content_length_digits_lem :
    (m n : ℕ) (value : Bytes)
    → m ≤ max_drain_bytes
    → (content_length_digits m value ≡ length_is n)
      ↔ (All IsDigit value × (decimal m value ≡ n) × (n ≤ max_drain_bytes))
unfolding decimal
content_length_digits_lem m n [] h = unfold content_length_digits in ground arith
content_length_digits_lem m n (c ∷ value) h =
    let k = m * 10 + (c - b'0') in
    elim (Bool-cases (within b'0' b'9' c)) [
      | inl digit ↦
          let d : IsDigit c = ground arith in
          elim (Bool-cases (ltb max_drain_bytes k)) [
            | inl over ↦
                rw (content_length_step m c value h d, over) (ground (arith, decimal_grows k value))
            | inr room ↦
                rw (content_length_step m c value h d, room)
                  (ground (
                    arith,
                    content_length_digits_lem k n value (ltb_false→le max_drain_bytes k room),
                  ))
          ]
      | inr other ↦ unfold content_length_digits in ground arith
    ]

-- `parse_content_length` finds `n` exactly for a value that is not empty and holds nothing but
-- digits, and that writes `n` in decimal, where `n` is no more than `max_drain_bytes`.
pub parse_content_length_iff :
    (value : Bytes) (n : ℕ)
    → (parse_content_length value ≡ length_is n)
      ↔ ((value ≢ []) × All IsDigit value × (decimal 0 value ≡ n) × (n ≤ max_drain_bytes))
unfolding parse_content_length
parse_content_length_iff [] n = ground arith
parse_content_length_iff (c ∷ value) n =
    ground (arith, content_length_digits_lem 0 n (c ∷ value) (omega arith))

-- The number that hexadecimal digits write behind those read before; `none` if one is no digit.
unfoldable pub hexadecimal : ℕ → Bytes → Option ℕ
hexadecimal before [] = some before
hexadecimal before (c ∷ line) = elim (ascii_hex_value c) [
  | none ↦ none
  | some digit ↦ hexadecimal (before * 16 + digit) line
]

hexadecimal_grows : (m n : ℕ) (line : Bytes) → hexadecimal m line ≡ some n → m ≤ n
unfolding hexadecimal
hexadecimal_grows m n [] e = ground arith
hexadecimal_grows m n (c ∷ line) e = elim (Option-cases (ascii_hex_value c)) [
  | inl none_is ↦ ground arith
  | inr (digit, d) ↦
      let later = hexadecimal_grows (m * 16 + digit) n line (rw (d, hexadecimal) at e) in
      omega (arith, later)
]

hex_value_lt : (c digit : ℕ) → ascii_hex_value c ≡ some digit → digit < 16
unfolding ascii_hex_value
hex_value_lt c digit e = ground arith

chunk_size_digits_lem :
    (m n : ℕ) (line : Bytes)
    → m ≤ max_body_bytes
    → (chunk_size_digits m line ≡ chunk_is n)
      ↔ ((hexadecimal m line ≡ some n) × (n ≤ max_body_bytes))
unfolding chunk_size_digits hexadecimal
chunk_size_digits_lem m n [] h = ground arith
chunk_size_digits_lem m n (c ∷ line) h = elim (Option-cases (ascii_hex_value c)) [
  | inl none_is ↦ ground arith
  | inr (digit, d) ↦
      let k = m * 16 + digit in
      let lt = hex_value_lt c digit d in
      let w = no_wrap k (omega (arith, lt)) in
      elim (Bool-cases (ltb max_body_bytes k)) [
        | inl over ↦
            rw (d, w, over, chunk_size_digits, hexadecimal)
              (ground (arith, hexadecimal_grows k n line))
        | inr room ↦
            rw (d, w, room, chunk_size_digits, hexadecimal)
              (ground (arith, chunk_size_digits_lem k n line (ltb_false→le max_body_bytes k room)))
      ]
]

chunk_size_iff :
    (s : Bytes) (n : ℕ)
    → ((if length s == 0 then chunk_failed malformed else chunk_size_digits 0 s) ≡ chunk_is n)
      ↔ ((s ≢ []) × (hexadecimal 0 s ≡ some n) × (n ≤ max_body_bytes))
chunk_size_iff [] n = ground arith
chunk_size_iff (c ∷ s) n = ground (arith, chunk_size_digits_lem 0 n (c ∷ s) (omega arith))

-- `parse_chunk_size` finds `n` exactly for a line that up to its first ';' is not empty and holds
-- nothing but hexadecimal digits, and writes `n` with them, where `n` is no more than
-- `max_body_bytes`.
pub parse_chunk_size_iff :
    (line : Bytes) (n : ℕ)
    → (parse_chunk_size line ≡ chunk_is n) ↔ (
        (without_extension line ≢ [])
        × (hexadecimal 0 (without_extension line) ≡ some n)
        × (n ≤ max_body_bytes))
unfolding parse_chunk_size
parse_chunk_size_iff line n = chunk_size_iff (without_extension line) n
