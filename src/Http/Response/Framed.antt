-- ===== src/Http/Response/Framed.antt =====
-- The framing of a response in src/http/response.cpp: one Content-Length, and it is the body's size.
use carafe.Base.{
  Bool, some, [], ◌∷◌, ◌++◌, ◌≡◌, refl, sym, ap, ◌∙◌, inl, inr, arith, if◌then◌else◌, Bytes, codes,
  equal, length, Bool-cases, append_assoc,
}
use carafe.Http.Ascii.{ascii_lower, ascii_equals_lowered}
use carafe.Http.Headers
use carafe.Http.Headers.Lookup.{equals_lowered}
use carafe.Http.Headers.{Headers, HeaderField}
use carafe.Http.Response.{Response, to_string, field_line, write_fields, status_line, serialize}

-- The fields that are written: those of the response without any Content-Length, and one more.
unfoldable pub kept_fields : Headers → Headers
kept_fields [] = []
kept_fields (field ∷ fields) =
    let rest = kept_fields fields in
    if equal field.name (codes "content-length") then rest else field ∷ rest

abbrev pub length_field : Response → HeaderField
length_field response = record {
  name = codes "content-length";
  value = to_string (length response.body);
}

unfoldable pub sent_fields : Response → Headers
sent_fields response = kept_fields response.headers ++ length_field response ∷ []

-- Any fields, each on its line.
unfoldable pub lines : Headers → Bytes
lines [] = []
lines (field ∷ fields) = field_line field ++ lines fields

names_length :
    (name : Bytes)
    → ascii_equals_lowered name (codes "content-length") ≡ equal name (codes "content-length")
names_length name = equals_lowered name (codes "content-length") ∙ unfold ascii_lower in refl

count-kept_fields :
    (fields : Headers) (last : HeaderField)
    → Headers.count (kept_fields fields ++ last ∷ []) (codes "content-length")
      ≡ Headers.count (last ∷ []) (codes "content-length")
unfolding Headers.count kept_fields
count-kept_fields [] last = refl
count-kept_fields (field ∷ fields) last =
    let same = names_length field.name in ground (arith, count-kept_fields fields last)

get-kept_fields :
    (fields : Headers) (last : HeaderField)
    → Headers.get (kept_fields fields ++ last ∷ []) (codes "content-length")
      ≡ Headers.get (last ∷ []) (codes "content-length")
unfolding Headers.get kept_fields
get-kept_fields [] last = refl
get-kept_fields (field ∷ fields) last =
    let same = names_length field.name in ground (arith, get-kept_fields fields last)

lines-append : (a b : Headers) → lines (a ++ b) ≡ lines a ++ lines b
unfolding lines
lines-append [] b = refl
lines-append (field ∷ a) b =
    ap (λ s. field_line field ++ s) (lines-append a b)
    ∙ sym (append_assoc (field_line field) (lines a) (lines b))

write_fields-lines : (fields : Headers) → write_fields fields ≡ lines (kept_fields fields)
unfolding write_fields lines kept_fields
write_fields-lines [] = refl
write_fields-lines (field ∷ fields) =
    elim (Bool-cases (equal field.name (codes "content-length"))) [
      | inl same ↦ rw same (write_fields-lines fields)
      | inr other ↦
          rw (other, write_fields, kept_fields, lines)
            (ap (λ s. field_line field ++ s) (write_fields-lines fields))
    ]

-- `serialize` writes the status line, one line for each field of the response that is not named
-- "content-length" and one line for a last field, a blank line, and the body if it is asked for.
-- Of the fields written exactly one is a Content-Length, and its value is the size of the body in
-- decimal, also where the body is left out.
pub serialize-lines :
    (response : Response) (with_body : Bool)
    → (serialize response with_body
        ≡ status_line response.status
          ++ lines (sent_fields response)
          ++ codes "\r\n"
          ++ (if with_body then response.body else []))
      × (Headers.count (sent_fields response) (codes "content-length") ≡ 1)
      × (Headers.get (sent_fields response) (codes "content-length")
          ≡ some (to_string (length response.body)))
unfolding serialize sent_fields
serialize-lines response with_body =
    let last = length_field response in
    (
      rw
          (
            lines-append (kept_fields response.headers) (last ∷ []),
            write_fields-lines response.headers,
          )
          (unfold lines in simp append_assoc refl),
      count-kept_fields response.headers last
          ∙ unfold Headers.count ascii_equals_lowered ascii_lower in refl,
      get-kept_fields response.headers last
          ∙ unfold Headers.get ascii_equals_lowered ascii_lower in refl,
    )
