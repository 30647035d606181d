-- ===== src/Http/RequestParser/Line.antt =====
-- parse_request_line against the grammar of a request line (src/http/request_parser.cpp).
pub mod Parts
mod Tests
use mathlib.Core.Option
use carafe.Base.{
  ℕ, suc, ◌+◌, ◌-◌, Bool, true, false, not, ◌||◌, Option, none, some, [], ◌∷◌, ◌++◌, ◌≡◌, ◌≢◌, ◌↔◌,
  refl, sym, subst, ap, ◌∙◌, inl, inr, arith, if◌then◌else◌, Bool-cases, Option-cases, ==_iff,
  Bytes, codes, equal, find, find_from, find_cases, find-append_self, find_from-append_self,
  drop-suc_length, drop-drop, length, take, drop, substr, take-append_length,
}
use carafe.Http.Request.{Method, get, Version, http10, http11, RequestLine, method_name}
use carafe.Http.RequestParser.{
  RequestLineResult, parsed, failed, malformed, contains_ctl, parse_parts, split_line,
  parse_request_line,
}
use Parts.{version_name, AreParts, PctEncoded, parse_parts-AreParts, AreParts-parse_parts}

-- The line that a request line is written as.
abbrev pub print : RequestLine → Bytes
print rl = method_name rl.method ++ b' ' ∷ (rl.target ++ b' ' ∷ version_name rl.version)

-- A target that a request line can carry.
pub record IsTarget (target : Bytes) : Type 0 where
  pub ne_nil : target ≢ []
  pub no_space : find b' ' target ≡ none
  pub no_ctl : contains_ctl target ≡ false
  pub encoded : PctEncoded target

module _ (m t v : Bytes) where
  -- The line made of three parts.
  abbrev joined : Bytes
  joined = m ++ b' ' ∷ (t ++ b' ' ∷ v)

  second_space :
      find b' ' t ≡ none → find_from b' ' joined (length m + 1) ≡ some (length m + 1 + length t)
  second_space n = rw (find_from-append_self b' ' m (t ++ b' ' ∷ v), find-append_self b' ' t v n)

  second_part : drop (length m + 1) joined ≡ t ++ b' ' ∷ v
  second_part = drop-suc_length m b' ' (t ++ b' ' ∷ v)

  third_part : drop (length m + 1 + length t + 1) joined ≡ v
  third_part =
      let e : length m + 1 + length t + 1 ≡ length m + 1 + (length t + 1) = omega arith in
      rw (e, ← drop-drop (length t + 1) (length m + 1) joined, second_part)
        (drop-suc_length t b' ' v)

  third_space :
      find_from b' ' joined (length m + 1 + length t + 1)
      ≡ Option.map (λ i. length m + 1 + length t + 1 + i) (find b' ' v)
  unfolding find_from
  third_space = rw third_part

  -- The cuts of the source give back the three parts.
  cut_parts :
      parse_parts
        (substr joined 0 (length m))
        (substr joined (length m + 1) (length m + 1 + length t - length m - 1))
        (drop (length m + 1 + length t + 1) joined)
      ≡ parse_parts m t v
  cut_parts =
      let e : length m + 1 + length t - length m - 1 ≡ length t = omega arith in
      rw (
        e,
        third_part,
        second_part,
        take-append_length m (b' ' ∷ (t ++ b' ' ∷ v)),
        take-append_length t (b' ' ∷ v),
      )

  -- With no further space and no control byte, the line is its three parts.
  split_line-joined :
      contains_ctl joined ≡ false
      → find b' ' v ≡ none
      → split_line joined (length m) (length m + 1 + length t) ≡ parse_parts m t v
  unfolding split_line
  split_line-joined c n = rw (split_line, c, third_space, n) cut_parts

  parse_request_line-joined :
      find b' ' m ≡ none
      → find b' ' t ≡ none
      → parse_request_line joined ≡ split_line joined (length m) (length m + 1 + length t)
  unfolding parse_request_line
  parse_request_line-joined hm ht =
      rw (find-append_self b' ' m (t ++ b' ' ∷ v) hm, parse_request_line, second_space ht)

  split_line_inv :
      {rl : RequestLine}
      → split_line joined (length m) (length m + 1 + length t) ≡ parsed rl
      → (contains_ctl joined ≡ false) × (find b' ' v ≡ none)
  unfolding split_line
  split_line_inv e = ground (arith, third_space)

contains_ctl-append : (a b : Bytes) → contains_ctl (a ++ b) ≡ contains_ctl a || contains_ctl b
unfolding contains_ctl
contains_ctl-append [] b = refl
contains_ctl-append (c ∷ a) b = ground (arith, contains_ctl-append a b)

contains_ctl-joined :
    (m t v : Bytes)
    → contains_ctl (joined m t v) ≡ contains_ctl m || (contains_ctl t || contains_ctl v)
contains_ctl-joined m t v = ground (
  arith,
  contains_ctl-append m (b' ' ∷ (t ++ b' ' ∷ v)),
  contains_ctl-space (t ++ b' ' ∷ v),
  contains_ctl-append t (b' ' ∷ v),
  contains_ctl-space v,
)
  where
    contains_ctl-space : (s : Bytes) → contains_ctl (b' ' ∷ s) ≡ contains_ctl s
    contains_ctl-space s = unfold contains_ctl in refl

no_space_failed :
    (line : Bytes) → find b' ' line ≡ none → parse_request_line line ≡ failed malformed
unfolding parse_request_line
no_space_failed line n = rw (n, parse_request_line)

one_space_failed :
    (m rest : Bytes)
    → find b' ' m ≡ none
    → find b' ' rest ≡ none
    → parse_request_line (m ++ b' ' ∷ rest) ≡ failed malformed
unfolding parse_request_line
one_space_failed m rest hm hr =
    rw (find-append_self b' ' m rest hm, parse_request_line, find_from-append_self b' ' m rest, hr)

joined_sound :
    (m t v : Bytes) (rl : RequestLine)
    → find b' ' m ≡ none
    → find b' ' t ≡ none
    → parse_request_line (joined m t v) ≡ parsed rl
    → (joined m t v ≡ print rl) × IsTarget rl.target
joined_sound m t v rl hm ht e =
    let split = sym (parse_request_line-joined m t v hm ht) ∙ e in
    let (c, n) = split_line_inv m t v split in
    let a = parse_parts-AreParts m t v rl (sym (split_line-joined m t v c n) ∙ split) in
    (
      rw (a.method_is, a.target_is, a.version_is_name),
      record {
        ne_nil = subst (λ s. s ≢ []) a.target_is a.target_ne_nil;
        no_space = rw a.target_is at ht;
        no_ctl = ground (arith, contains_ctl-joined m t v, a.target_is);
        encoded = subst PctEncoded a.target_is a.target_encoded;
      },
    )

-- A line that `parse_request_line` accepts is the method's name, the target and the version's name
-- joined by single spaces, and the target is not empty, holds no space and no control byte, and
-- has two hexadecimal digits behind each '%'.
pub parse_request_line_sound :
    (line : Bytes) (rl : RequestLine)
    → parse_request_line line ≡ parsed rl
    → (line ≡ print rl) × IsTarget rl.target
parse_request_line_sound line rl e = elim (find_cases b' ' line) [
  | inl n ↦ absurd (cc (no_space_failed line n))
  | inr (m, rest, p, hm) ↦ elim (find_cases b' ' rest) [
    | inl n ↦ absurd (cc (one_space_failed m rest hm n))
    | inr (t, v, q, ht) ↦
        let whole : line ≡ joined m t v = rw (p, q) in
        rw whole (joined_sound m t v rl hm ht (rw whole at e))
  ]
]

method_name-no_space : (m : Method) → find b' ' (method_name m) ≡ none
unfolding method_name find
method_name-no_space get = refl
method_name-no_space _ = refl

method_name-no_ctl : (m : Method) → contains_ctl (method_name m) ≡ false
unfolding method_name contains_ctl
method_name-no_ctl get = refl
method_name-no_ctl _ = refl

version_name-no_space : (v : Version) → find b' ' (version_name v) ≡ none
unfolding find
version_name-no_space http10 = refl
version_name-no_space http11 = refl

version_name-no_ctl : (v : Version) → contains_ctl (version_name v) ≡ false
unfolding contains_ctl
version_name-no_ctl http10 = refl
version_name-no_ctl http11 = refl

pub contains_ctl-print :
    (rl : RequestLine) → contains_ctl rl.target ≡ false → contains_ctl (print rl) ≡ false
contains_ctl-print rl c =
    contains_ctl-joined (method_name rl.method) rl.target (version_name rl.version)
    ∙ rw (method_name-no_ctl rl.method, c, version_name-no_ctl rl.version)

-- The method's name, the target and the version's name joined by single spaces are parsed back to
-- the method, the target and the version, if the target is not empty, holds no space and no
-- control byte, and has two hexadecimal digits behind each '%'.
pub parse_request_line-print :
    (rl : RequestLine) → IsTarget rl.target → parse_request_line (print rl) ≡ parsed rl
parse_request_line-print rl v =
    let m = method_name rl.method in
    let w = version_name rl.version in
    parse_request_line-joined m rl.target w (method_name-no_space rl.method) v.no_space
    ∙ split_line-joined m rl.target w (contains_ctl-print rl v.no_ctl)
        (version_name-no_space rl.version)
    ∙ AreParts-parse_parts rl v.ne_nil v.encoded

-- `parse_request_line` gives a request line exactly for the method's name, the target and the
-- version's name joined by single spaces, where the target is not empty, holds no space and no
-- control byte, and has two hexadecimal digits behind each '%'.
pub parse_request_line_iff :
    (line : Bytes) (rl : RequestLine)
    → (parse_request_line line ≡ parsed rl) ↔ ((line ≡ print rl) × IsTarget rl.target)
parse_request_line_iff line rl = (
  parse_request_line_sound line rl,
  λ (e, t). ap parse_request_line e ∙ parse_request_line-print rl t,
)
