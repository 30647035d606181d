-- ===== src/Server/Pipeline/Allow.antt =====
-- The Allow field that src/server/pipeline.cpp writes, read back as src/http/field_list.hpp reads a list.
use carafe.Base.{
  List, [], ◌∷◌, ◌++◌, map, ◌≡◌, refl, sym, ap, ◌∙◌, Bytes, codes, append_assoc, append-nil,
  length-append, length, ◌==◌, false, arith,
}
use carafe.Http.FieldList.{list_elements, trim_front, trim_back}
use carafe.Http.FieldList.Split.{split, prepend, trimmed, list_elements-split}
use carafe.Http.Request.{
  Method, get, head, post, put, delete, connect, options, trace, patch, method_name,
}
use carafe.Server.Pipeline.{allow_from, allow_value}

-- The names behind the first.
abbrev further : List Method → Bytes
further [] = []
further (method ∷ methods) = codes ", " ++ (method_name method ++ further methods)

-- How a name is cut off a list, with or without a blank in front.
record IsElement (name : Bytes) : Type 0 where
  before_comma :
      (value : Bytes) → split (name ++ b',' ∷ b' ' ∷ value) ≡ name ∷ prepend b' ' (split value)
  at_end : split (name ++ []) ≡ name ∷ []
  kept : (pieces : List Bytes) → trimmed (name ∷ pieces) ≡ name ∷ trimmed pieces
  bared : (pieces : List Bytes) → trimmed ((b' ' ∷ name) ∷ pieces) ≡ name ∷ trimmed pieces
  some_bytes : (value : Bytes) → (length (value ++ name) == 0) ≡ false

method_name-IsElement : (method : Method) → IsElement (method_name method)
unfolding split trimmed trim_front trim_back method_name
method_name-IsElement get = record {
  before_comma = λ value. refl;
  at_end = refl;
  kept = λ pieces. refl;
  bared = λ pieces. refl;
  some_bytes = λ value. ground (arith, length-append value (method_name get));
}
method_name-IsElement head = record {
  before_comma = λ value. refl;
  at_end = refl;
  kept = λ pieces. refl;
  bared = λ pieces. refl;
  some_bytes = λ value. ground (arith, length-append value (method_name head));
}
method_name-IsElement post = record {
  before_comma = λ value. refl;
  at_end = refl;
  kept = λ pieces. refl;
  bared = λ pieces. refl;
  some_bytes = λ value. ground (arith, length-append value (method_name post));
}
method_name-IsElement put = record {
  before_comma = λ value. refl;
  at_end = refl;
  kept = λ pieces. refl;
  bared = λ pieces. refl;
  some_bytes = λ value. ground (arith, length-append value (method_name put));
}
method_name-IsElement delete = record {
  before_comma = λ value. refl;
  at_end = refl;
  kept = λ pieces. refl;
  bared = λ pieces. refl;
  some_bytes = λ value. ground (arith, length-append value (method_name delete));
}
method_name-IsElement connect = record {
  before_comma = λ value. refl;
  at_end = refl;
  kept = λ pieces. refl;
  bared = λ pieces. refl;
  some_bytes = λ value. ground (arith, length-append value (method_name connect));
}
method_name-IsElement options = record {
  before_comma = λ value. refl;
  at_end = refl;
  kept = λ pieces. refl;
  bared = λ pieces. refl;
  some_bytes = λ value. ground (arith, length-append value (method_name options));
}
method_name-IsElement trace = record {
  before_comma = λ value. refl;
  at_end = refl;
  kept = λ pieces. refl;
  bared = λ pieces. refl;
  some_bytes = λ value. ground (arith, length-append value (method_name trace));
}
method_name-IsElement patch = record {
  before_comma = λ value. refl;
  at_end = refl;
  kept = λ pieces. refl;
  bared = λ pieces. refl;
  some_bytes = λ value. ground (arith, length-append value (method_name patch));
}

trimmed-nil : trimmed [] ≡ []
unfolding trimmed
trimmed-nil = refl

bared_first :
    (method : Method) (methods : List Method)
    → (trimmed (split (method_name method ++ further methods))
        ≡ method_name method ∷ map method_name methods)
      × (trimmed (prepend b' ' (split (method_name method ++ further methods)))
          ≡ method_name method ∷ map method_name methods)
bared_first method [] =
    let e = method_name-IsElement method in
    (
      ap trimmed e.at_end ∙ e.kept [] ∙ ap (◌∷◌ (method_name method)) trimmed-nil,
      ap (λ pieces. trimmed (prepend b' ' pieces)) e.at_end
          ∙ e.bared []
          ∙ ap (◌∷◌ (method_name method)) trimmed-nil,
    )
bared_first method (next ∷ methods) =
    let e = method_name-IsElement method in
    let value = method_name next ++ further methods in
    let cut = e.before_comma value in
    let later = ap (◌∷◌ (method_name method)) (bared_first next methods).1 in
    (
      ap trimmed cut ∙ e.kept (prepend b' ' (split value)) ∙ later,
      ap (λ pieces. trimmed (prepend b' ' pieces)) cut
          ∙ e.bared (prepend b' ' (split value))
          ∙ later,
    )

allow_from-further :
    (value : Bytes) (methods : List Method)
    → (length value == 0) ≡ false
    → allow_from value methods ≡ value ++ further methods
unfolding allow_from
allow_from-further value [] some_bytes = sym (append-nil value)
allow_from-further value (method ∷ methods) some_bytes =
    let e = method_name-IsElement method in
    rw (some_bytes, allow_from)
      (allow_from-further ((value ++ codes ", ") ++ method_name method) methods
          (e.some_bytes (value ++ codes ", "))
        ∙ append_assoc (value ++ codes ", ") (method_name method) (further methods)
        ∙ append_assoc value (codes ", ") (method_name method ++ further methods))

-- The elements of the Allow value are the names of the methods, in order.
pub list_elements-allow_value :
    (methods : List Method) → list_elements (allow_value methods) ≡ map method_name methods
unfolding allow_value allow_from
list_elements-allow_value [] =
    list_elements-split [] ∙ (unfold split trimmed trim_front trim_back in refl)
list_elements-allow_value (method ∷ methods) =
    let value =
      allow_from-further (method_name method) methods
        ((method_name-IsElement method).some_bytes []) in
    ap list_elements value
    ∙ list_elements-split (method_name method ++ further methods)
    ∙ (bared_first method methods).0
