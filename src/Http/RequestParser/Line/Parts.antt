-- ===== src/Http/RequestParser/Line/Parts.antt =====
-- The three parts of a request line: which texts each check lets through.
use carafe.Base.{
  All, subst, ℕ, true, false, some, List, [], ◌∷◌, ◌≡◌, ◌≢◌, ◌↔◌, refl, ap, ◌∙◌, inl, inr, arith,
  ◌==◌, Bool-cases, Option-cases, &&-true, ==_iff, Bytes, codes, equal, equal_iff, length,
}
use carafe.Http.Request.{
  Method, get, head, post, put, delete, connect, options, trace, patch, Version, http10, http11,
  RequestLine, method_name,
}
use carafe.Http.RequestParser.{
  parsed, lookup_method, look_up, method_table, version_table, version_is, parse_version,
  version_shape, known_version, has_valid_escapes, is_hex_digit, parse_method, parse_target,
  parse_parts,
}

abbrev pub version_name : Version → Bytes
version_name http10 = codes "HTTP/1.0"
version_name http11 = codes "HTTP/1.1"

-- Every '%' is followed by two hexadecimal digits.
pub data PctEncoded : Bytes → Type 0 where
  nil : PctEncoded []
  plain : {c : ℕ} {s : Bytes} → (c == b'%') ≡ false → PctEncoded s → PctEncoded (c ∷ s)
  escape :
      {h l : ℕ} {s : Bytes}
      → is_hex_digit h ≡ true
      → is_hex_digit l ≡ true
      → PctEncoded s
      → PctEncoded (b'%' ∷ h ∷ l ∷ s)

pub has_valid_escapes-cons :
    (c : ℕ) (s : Bytes) → (c == b'%') ≡ false → has_valid_escapes (c ∷ s) ≡ has_valid_escapes s
unfolding has_valid_escapes
has_valid_escapes-cons c [] n = rw n
has_valid_escapes-cons c (d ∷ []) n = rw n
has_valid_escapes-cons c (d ∷ e ∷ s) n = rw n

pub has_valid_escapes→PctEncoded : (s : Bytes) → has_valid_escapes s ≡ true → PctEncoded s
unfolding has_valid_escapes
has_valid_escapes→PctEncoded [] h = nil
has_valid_escapes→PctEncoded (c ∷ []) h = plain (ground arith) nil
has_valid_escapes→PctEncoded (c ∷ d ∷ []) h = plain (ground arith) (plain (ground arith) nil)
has_valid_escapes→PctEncoded (c ∷ d ∷ e ∷ s) h = elim (Bool-cases (c == b'%')) [
  | inl p ↦ rw ((==_iff c b'%').0 p) (
      let (digits, valid) = &&-true _ (has_valid_escapes s) (rw ((==_iff c b'%').0 p) at h) in
      let (hd, he) = &&-true (is_hex_digit d) (is_hex_digit e) digits in
      escape hd he (has_valid_escapes→PctEncoded s valid))
  | inr n ↦ plain n (has_valid_escapes→PctEncoded (d ∷ e ∷ s) (ground arith))
]

pub PctEncoded→has_valid_escapes : {s : Bytes} → PctEncoded s → has_valid_escapes s ≡ true
unfolding has_valid_escapes
PctEncoded→has_valid_escapes nil = refl
PctEncoded→has_valid_escapes (plain {c} {s} n p) =
    has_valid_escapes-cons c s n ∙ PctEncoded→has_valid_escapes p
PctEncoded→has_valid_escapes (escape h l p) = rw (h, l, PctEncoded→has_valid_escapes p)

-- What a table gives is one of its rows.
look_up-All :
    {A : Type 0} (P : Bytes → A → Type 0) (table : List (Bytes × A)) (s : Bytes) (a : A)
    → All (λ row. P row.0 row.1) table
    → look_up table s ≡ some a
    → P s a
unfolding look_up
look_up-All P [] s a all e = absurd (cc)
look_up-All P ((name, b) ∷ table) s a all e = elim (Bool-cases (equal s name)) [
  | inl hit ↦
      let e' : some b ≡ some a = rw (hit, look_up) at e in
      let same : b ≡ a = cc in rw ((equal_iff s name).0 hit) (subst (P name) same all.0)
  | inr miss ↦ look_up-All P table s a all.1 (rw (miss, look_up) at e)
]

pub lookup-method_name : (m : Method) → lookup_method (method_name m) ≡ some m
unfolding lookup_method method_name
lookup-method_name get = refl
lookup-method_name head = refl
lookup-method_name post = refl
lookup-method_name put = refl
lookup-method_name delete = refl
lookup-method_name connect = refl
lookup-method_name options = refl
lookup-method_name trace = refl
lookup-method_name patch = refl

pub lookup_method-eq : (s : Bytes) (m : Method) → lookup_method s ≡ some m → s ≡ method_name m
unfolding lookup_method method_name
lookup_method-eq s m =
    look_up-All (λ t n. t ≡ method_name n) method_table s m
      (refl, (refl, (refl, (refl, (refl, (refl, (refl, (refl, (refl, tt)))))))))

parse_version-eq : (s : Bytes) (v : Version) → parse_version s ≡ version_is v → s ≡ version_name v
unfolding parse_version known_version
parse_version-eq s v e = elim (Bool-cases (version_shape s)) [
  | inl shape ↦ elim (Option-cases (look_up version_table s)) [
    | inl unknown ↦ absurd (cc (rw (shape, parse_version, unknown, known_version) at e))
    | inr (w, known) ↦
        let found : version_is w ≡ version_is v =
          rw (shape, parse_version, known, known_version) at e in
        let same : w ≡ v = cc in
        look_up-All (λ t u. t ≡ version_name u) version_table s v (refl, (refl, tt))
          (known ∙ ap some same)
  ]
  | inr bad ↦ absurd (cc (rw (bad, parse_version) at e))
]

pub parse_version_iff :
    (s : Bytes) (v : Version) → (parse_version s ≡ version_is v) ↔ (s ≡ version_name v)
unfolding parse_version version_shape known_version look_up equal
parse_version_iff s http10 = (parse_version-eq s http10, λ e. rw e)
parse_version_iff s http11 = (parse_version-eq s http11, λ e. rw e)

-- What the checks on the parts establish.
pub record AreParts (m t v : Bytes) (rl : RequestLine) : Type 0 where
  pub method_is : m ≡ method_name rl.method
  pub target_is : t ≡ rl.target
  pub version_is_name : v ≡ version_name rl.version
  pub target_ne_nil : t ≢ []
  pub target_encoded : PctEncoded t

parse_parts_inv :
    (m t v : Bytes) (rl : RequestLine)
    → parse_parts m t v ≡ parsed rl
    → (parse_version v ≡ version_is rl.version)
      × (has_valid_escapes t ≡ true)
      × (lookup_method m ≡ some rl.method)
      × (t ≡ rl.target)
      × (t ≢ [])
unfolding parse_parts parse_target parse_method
parse_parts_inv m t v rl e = ground arith

pub parse_parts-AreParts :
    (m t v : Bytes) (rl : RequestLine) → parse_parts m t v ≡ parsed rl → AreParts m t v rl
parse_parts-AreParts m t v rl e =
    let (ver, esc, meth, targ, ne) = parse_parts_inv m t v rl e in
    record {
      method_is = lookup_method-eq m rl.method meth;
      target_is = targ;
      version_is_name = (parse_version_iff v rl.version).0 ver;
      target_ne_nil = ne;
      target_encoded = has_valid_escapes→PctEncoded t esc;
    }

method_name-length : (m : Method) → (length (method_name m) == 0) ≡ false
unfolding method_name
method_name-length get = refl
method_name-length _ = refl

version_name-length : (v : Version) → (length (version_name v) == 0) ≡ false
version_name-length http10 = refl
version_name-length http11 = refl

length-ne-nil : (t : Bytes) → t ≢ [] → (length t == 0) ≡ false
length-ne-nil [] h = absurd (h refl)
length-ne-nil (x ∷ t) h = ground arith

pub AreParts-parse_parts :
    (rl : RequestLine)
    → rl.target ≢ []
    → PctEncoded rl.target
    → parse_parts (method_name rl.method) rl.target (version_name rl.version) ≡ parsed rl
unfolding parse_parts parse_target parse_method
AreParts-parse_parts rl ne enc = rw (
  method_name-length rl.method,
  length-ne-nil rl.target ne,
  version_name-length rl.version,
  (parse_version_iff (version_name rl.version) rl.version).1 refl,
  PctEncoded→has_valid_escapes enc,
  parse_method,
  lookup-method_name rl.method,
)
