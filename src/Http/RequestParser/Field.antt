-- ===== src/Http/RequestParser/Field.antt =====
-- parse_header_field against the grammar of a field line (src/http/request_parser.cpp).
pub mod Trim
mod Tests
use carafe.Base.{
  All, ℕ, ◌+◌, Bool, true, false, not, Option, none, some, List, [], ◌∷◌, ◌++◌, map, ◌≡◌, ◌≢◌, ◌↔◌,
  ==_iff, subst, refl, sym, ap, ◌∙◌, inl, inr, arith, ◌==◌, if◌then◌else◌, Bool-cases, Option-cases,
  Bytes, find, find_cases, find-append_self, drop-suc_length, length, take, drop,
  take-append_length,
}
use carafe.Http.Ascii.{ascii_lower}
use carafe.Http.Headers.{HeaderField}
use carafe.Http.RequestParser.{
  is_tchar, is_ows, lower_name, all_valid_value_chars, trim_ows, parse_field_parts,
  parse_header_field,
}
use Trim.{
  opens_with_ows, ends_with_ows, AllOws, Trimming, trim_ows-Trimming, trim_ows-spaced,
  all_valid-Trimming,
}

-- A line that carries `field`: a name of token characters, in any case, a colon, and the value with
-- optional whitespace on both sides, which is no part of it.
pub record IsFieldLine (line : Bytes) (field : HeaderField) : Type 0 where
  pub name_part : Bytes
  pub value_part : Bytes
  pub line_is : line ≡ name_part ++ b':' ∷ value_part
  pub name_ne_nil : name_part ≢ []
  pub name_tchars : All (λ c. is_tchar c ≡ true) name_part
  pub name_folded : field.name ≡ map ascii_lower name_part
  pub value_trimmed : Trimming value_part field.value
  pub value_valid : all_valid_value_chars field.value ≡ true

lower_name-tchars :
    (m n : Bytes) → lower_name m ≡ some n → All (λ c. is_tchar c ≡ true) m × (n ≡ map ascii_lower m)
unfolding lower_name
lower_name-tchars [] n e = (tt, cc)
lower_name-tchars (c ∷ m) n e = elim (Option-cases (lower_name m)) [
  | inl x ↦ absurd (ground arith)
  | inr (k, x) ↦ let (a, f) = lower_name-tchars m k x in ((ground arith, a), ground (arith, f))
]

lower_name-map :
    (m : Bytes) → All (λ c. is_tchar c ≡ true) m → lower_name m ≡ some (map ascii_lower m)
unfolding lower_name
lower_name-map [] a = refl
lower_name-map (c ∷ m) (t, a) = rw (t, lower_name, lower_name-map m a)

colon-no_tchar : (c : ℕ) → is_tchar c ≡ true → (c == b':') ≡ false
unfolding is_tchar
colon-no_tchar c t = elim (Bool-cases (c == b':')) [
  | inl e ↦ absurd (cc (rw ((==_iff c b':').0 e) at t))
  | inr e ↦ e
]

tchars-no_colon : (m : Bytes) → All (λ c. is_tchar c ≡ true) m → find b':' m ≡ none
unfolding find
tchars-no_colon [] a = refl
tchars-no_colon (c ∷ m) (t, a) = rw (colon-no_tchar c t, tchars-no_colon m a)

parse_header_field-parts :
    (m v : Bytes) → find b':' m ≡ none → parse_header_field (m ++ b':' ∷ v) ≡ parse_field_parts m v
unfolding parse_header_field
parse_header_field-parts m v n = rw (
  find-append_self b':' m v n,
  parse_header_field,
  take-append_length m (b':' ∷ v),
  drop-suc_length m b':' v,
)

parts_sound :
    (m v : Bytes) (field : HeaderField)
    → parse_field_parts m v ≡ some field
    → (m ≢ [])
      × (lower_name m ≡ some field.name)
      × (all_valid_value_chars v ≡ true)
      × (field.value ≡ trim_ows v)
unfolding parse_field_parts
parts_sound m v field e = ground arith

parts_complete :
    (m v : Bytes) (field : HeaderField)
    → m ≢ []
    → lower_name m ≡ some field.name
    → all_valid_value_chars v ≡ true
    → trim_ows v ≡ field.value
    → parse_field_parts m v ≡ some field
unfolding parse_field_parts
parts_complete [] v field n l a t = absurd (n refl)
parts_complete (c ∷ m) v field n l a t =
    let named : (length (c ∷ m) == 0) ≡ false = ground arith in
    rw (named, l, parse_field_parts, a, t)

split_sound :
    (m v : Bytes) (field : HeaderField)
    → find b':' m ≡ none
    → parse_header_field (m ++ b':' ∷ v) ≡ some field
    → IsFieldLine (m ++ b':' ∷ v) field
split_sound m v field n e =
    let (ne, low, valid, value) =
      parts_sound m v field (sym (parse_header_field-parts m v n) ∙ e) in
    let (tchars, folded) = lower_name-tchars m field.name low in
    let trimmed = subst (Trimming v) (sym value) (trim_ows-Trimming v) in
    record {
      name_part = m;
      value_part = v;
      line_is = refl;
      name_ne_nil = ne;
      name_tchars = tchars;
      name_folded = folded;
      value_trimmed = trimmed;
      value_valid = sym (all_valid-Trimming trimmed) ∙ valid;
    }

line_sound :
    (line : Bytes) (field : HeaderField)
    → parse_header_field line ≡ some field
    → IsFieldLine line field
unfolding parse_header_field
line_sound line field e = elim (find_cases b':' line) [
  | inl n ↦ absurd (cc (rw (n, parse_header_field) at e))
  | inr (m, v, p, n) ↦ rw p (split_sound m v field n (rw p at e))
]

line_complete :
    (line : Bytes) (field : HeaderField)
    → IsFieldLine line field
    → parse_header_field line ≡ some field
line_complete line field f =
    ap parse_header_field f.line_is
    ∙ parse_header_field-parts f.name_part f.value_part (tchars-no_colon f.name_part f.name_tchars)
    ∙ parts_complete f.name_part f.value_part field f.name_ne_nil
        (lower_name-map f.name_part f.name_tchars ∙ ap some (sym f.name_folded))
        (all_valid-Trimming f.value_trimmed ∙ f.value_valid) (trim_ows-spaced f.value_trimmed)

-- `parse_header_field` gives a field exactly for a line that consists of a name of token
-- characters, a colon, and a value with spaces and tabs on either side of it: the field's name is
-- the line's in lower case, its value neither begins nor ends with a space or a tab, and every
-- character of it is valid.
pub parse_header_field_iff :
    (line : Bytes) (field : HeaderField)
    → (parse_header_field line ≡ some field) ↔ IsFieldLine line field
parse_header_field_iff line field = (line_sound line field, line_complete line field)
