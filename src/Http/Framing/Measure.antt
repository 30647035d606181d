-- ===== src/Http/Framing/Measure.antt =====
-- `measure_body` of src/http/request_reader.cpp: which heads frame their body by chunks, and which by
-- a length.
use carafe.Base.{
  ◌*◌, ◌-◌, ◌%◌, ℕ, ◌+◌, true, false, Option, none, some, List, [], ◌∷◌, ◌++◌, ◌≡◌, ◌↔◌, refl,
  subst, sym, ◌∙◌, inl, inr, arith, if◌then◌else◌, Bytes, codes, equal, Bool-cases, Option-cases,
  length,
}
use carafe.Http.Ascii.{ascii_equals_lowered}
use carafe.Http.FieldList.{list_elements}
use carafe.Http.Framing.{
  size_mod, content_length_digits, length_is, length_chunked, Codings, add_coding, add_codings,
  walk_codings, transfer_codings, measure_codings, measure_transfer, measure_content, measure_body,
  parse_content_length,
}
use carafe.Http.Headers
use carafe.Http.Headers.{Headers, HeaderField}
use carafe.Http.Request.{Version, http11, http10}

-- The transfer codings of a head: the elements of all its fields of that name, as one list.
unfoldable pub codings_of : Headers → List Bytes
codings_of [] = []
codings_of (field ∷ fields) =
    if equal field.name (codes "transfer-encoding")
    then list_elements field.value ++ codings_of fields
    else codings_of fields

add_codings-append :
    (xs ys : List Bytes) (found : Codings)
    → add_codings found (xs ++ ys) ≡ add_codings (add_codings found xs) ys
unfolding add_codings
add_codings-append [] ys found = refl
add_codings-append (x ∷ xs) ys found = add_codings-append xs ys (add_coding found x)

walk_codings_lem :
    (headers : Headers) (found : Codings)
    → walk_codings found headers ≡ add_codings found (codings_of headers)
unfolding walk_codings codings_of
walk_codings_lem [] found = unfold add_codings in refl
walk_codings_lem (field ∷ fields) found =
    elim (Bool-cases (equal field.name (codes "transfer-encoding"))) [
      | inl same ↦ rw same (
          walk_codings_lem fields (add_codings found (list_elements field.value))
          ∙ sym (add_codings-append (list_elements field.value) (codings_of fields) found))
      | inr other ↦ rw other (walk_codings_lem fields found)
    ]

count-add_codings :
    (xs : List Bytes) (found : Codings) → (add_codings found xs).count ≡ found.count + length xs
unfolding add_codings
count-add_codings [] found = omega arith
count-add_codings (x ∷ xs) found = omega (arith, count-add_codings xs (add_coding found x))

abbrev no_codings : Codings
no_codings = record { count = 0; chunked = 0; last = [] }

-- One coding, and it is chunked.
abbrev pub IsChunked : List Bytes → Type 0
IsChunked (coding ∷ []) = ascii_equals_lowered (codes "chunked") coding ≡ true
IsChunked _ = ⊥

measure_codings_lem :
    (xs : List Bytes)
    → (measure_codings (add_codings no_codings xs) ≡ length_chunked) ↔ IsChunked xs
unfolding measure_codings
measure_codings_lem [] = unfold add_codings ascii_equals_lowered in ground arith
measure_codings_lem (x ∷ []) = unfold add_codings in ground arith
measure_codings_lem (x ∷ y ∷ xs) =
    let n = count-add_codings (x ∷ y ∷ xs) no_codings in ground (arith, n)

measure_transfer_lem :
    (headers : Headers) (version : Version)
    → (measure_transfer headers version ≡ length_chunked) ↔ (
        (Headers.contains headers (codes "content-length") ≡ false)
        × (version ≡ http11)
        × IsChunked (codings_of headers))
unfolding measure_transfer transfer_codings
measure_transfer_lem headers http10 = ground arith
measure_transfer_lem headers http11 =
    rw (walk_codings_lem headers no_codings)
      (ground (arith, measure_codings_lem (codings_of headers)))

digits-not_chunked : (m : ℕ) (value : Bytes) → (content_length_digits m value ≡ length_chunked) → ⊥
unfolding content_length_digits
digits-not_chunked m [] e = ground arith
digits-not_chunked m (c ∷ value) e =
    ground (arith, digits-not_chunked ((m * 10 + (c - b'0')) % size_mod) value)

content_length-not_chunked : (value : Bytes) → (parse_content_length value ≡ length_chunked) → ⊥
unfolding parse_content_length
content_length-not_chunked value e = ground (arith, digits-not_chunked 0 value)

measure_content-not_chunked : (headers : Headers) → (measure_content headers ≡ length_chunked) → ⊥
unfolding measure_content
measure_content-not_chunked headers e =
    elim (Option-cases (Headers.get headers (codes "content-length"))) [
      | inl g ↦ ground arith
      | inr (value, g) ↦ ground (arith, content_length-not_chunked value)
    ]

-- Nothing is got exactly when nothing is counted.
get-count :
    (headers : Headers) (name : Bytes)
    → Headers.count headers name ≡ 0 ↔ Headers.get headers name ≡ none
unfolding Headers.count Headers.get
get-count [] name = (λ _. refl, λ _. refl)
get-count (field ∷ fields) name = ground (arith, get-count fields name)

-- What a length of `n` bytes is read from.
pub data Declares (headers : Headers) : ℕ → Type 0 where
  undeclared : Headers.count headers (codes "content-length") ≡ 0 → Declares headers 0
  declared :
      {n : ℕ} (value : Bytes)
      → Headers.count headers (codes "content-length") ≡ 1
      → Headers.get headers (codes "content-length") ≡ some value
      → parse_content_length value ≡ length_is n
      → Declares headers n

content-Declares :
    (headers : Headers) (n : ℕ) (declaration : Option Bytes)
    → Headers.get headers (codes "content-length") ≡ declaration
    → measure_content headers ≡ length_is n
    → Declares headers n
unfolding measure_content
content-Declares headers n none g e =
    let c : Headers.count headers (codes "content-length") ≡ 0 =
      (get-count headers (codes "content-length")).1 g in
    let zero_is : 0 ≡ n = ground arith in subst (Declares headers) zero_is (undeclared c)
content-Declares headers n (some value) g e =
    let some_count = (get-count headers (codes "content-length")).0 in
    let c : Headers.count headers (codes "content-length") ≡ 1 = ground (arith, some_count) in
    declared value c g (ground arith)

transfer-not_length :
    (headers : Headers) (version : Version) (n : ℕ)
    → (measure_transfer headers version ≡ length_is n)
    → ⊥
unfolding measure_transfer measure_codings
transfer-not_length headers version n e = ground arith

-- `measure_body` finds chunked framing exactly for a head of version 1.1 with a Transfer-Encoding
-- and no Content-Length, whose Transfer-Encoding fields hold one coding between them, "chunked" in
-- any case.
pub measure_body-IsChunked :
    (headers : Headers) (version : Version)
    → (measure_body headers version ≡ length_chunked) ↔ (
        (Headers.contains headers (codes "transfer-encoding") ≡ true)
        × (Headers.contains headers (codes "content-length") ≡ false)
        × (version ≡ http11)
        × IsChunked (codings_of headers))
unfolding measure_body
measure_body-IsChunked headers version =
    elim (Bool-cases (Headers.contains headers (codes "transfer-encoding"))) [
      | inl te ↦ rw te (ground (arith, measure_transfer_lem headers version))
      | inr no_te ↦ rw no_te (ground (arith, measure_content-not_chunked headers))
    ]

-- A length that `measure_body` finds comes from a head with no Transfer-Encoding, and is 0 if
-- there is no Content-Length, and otherwise is parsed from the only one.
pub measure_body-Declares :
    (headers : Headers) (version : Version) (n : ℕ)
    → measure_body headers version ≡ length_is n
    → (Headers.contains headers (codes "transfer-encoding") ≡ false) × Declares headers n
unfolding measure_body
measure_body-Declares headers version n e =
    elim (Bool-cases (Headers.contains headers (codes "transfer-encoding"))) [
      | inl te ↦ absurd (transfer-not_length headers version n (ground arith))
      | inr no_te ↦
          let content : measure_content headers ≡ length_is n = ground arith in
          (
            no_te,
            content-Declares headers n (Headers.get headers (codes "content-length")) refl content,
          )
    ]
