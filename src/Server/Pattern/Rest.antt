-- ===== src/Server/Pattern/Rest.antt =====
-- What a "<path:name>" segment of src/server/router.cpp captures.
use carafe.Base.{
  Bool, true, false, not, ◌&&◌, Option, none, some, List, [], ◌∷◌, ◌++◌, map, ◌≡◌, refl, ap, ◌∙◌,
  inl, inr, ◌⊎◌, arith, ◌==◌, if◌then◌else◌, Bytes, Bool-cases, All, All-both, All-map_list,
  All-map, length, subst, ==_iff,
}
use carafe.Http.Path.{segments, resolve_escapes, normalize_path}
use carafe.Http.Path.Escapes.{Resolved, resolve_escapes-Resolved, segments-Resolved, join-Resolved}
use carafe.Http.Path.Segments.{join-segments}
use carafe.Http.Path.Dots.{IsPlain}
use carafe.Http.Path.Normal.{remove_dot_segments-Resolved, normalize_path-IsPlain}
use carafe.Http.RequestParser.{has_valid_escapes}
use carafe.Http.Request.{Params}
use carafe.Server.Pattern.{
  rest_capture, Segment, Pattern, binds_a_name, is_rest, percent_decode, count_slashes, accepts,
  cut_slash, match_rest, match_from, at_end, keep, matches,
}
use carafe.Server.Pattern.Decode.{segments-decode, decode-IsPlain}

later_segments : Option Bytes → List Bytes
later_segments none = []
later_segments (some path) = segments path

cut_segments :
    (path : Bytes) → segments path ≡ (cut_slash path).0 ∷ later_segments (cut_slash path).1
unfolding segments cut_slash later_segments
cut_segments [] = refl
cut_segments (c ∷ path) = elim (Bool-cases (c == b'/')) [
  | inl slash ↦ rw (slash, segments, cut_slash) refl
  | inr other ↦ rw (other, segments, cut_slash, cut_segments path) refl
]

-- Neither empty nor absolute.
abbrev pub IsRelative : Bytes → Type 0
IsRelative [] = ⊥
IsRelative (c ∷ path) = (c == b'/') ≡ false

-- A value that stays below any directory that it is joined under.
pub record StaysBelow (value : Bytes) : Type 0 where
  pub relative : IsRelative value
  pub plain : All IsPlain (segments value)

abbrev pub Captures : Bytes → Params → Type 0
Captures name params =
    (before : Params) × (value : Bytes) × (params
      ≡ before ++ record { name = name; value = value } ∷ [])
    × StaysBelow value

abbrev Good : Bytes → Type 0
Good s = Resolved s × IsPlain s

All-Good : (path : Bytes) → Resolved path → All IsPlain (segments path) → All Good (segments path)
All-Good path r ps = All-both Resolved IsPlain (segments path) (segments-Resolved r) ps

guards_pass :
    (refused ends closed : Bool) (r n : Option Params) (params : Params)
    → (if refused then none else if ends then r else if closed then none else n) ≡ some params
    → (refused ≡ false)
      × (((ends ≡ true) × (r ≡ some params)) ⊎ ((ends ≡ false) × (n ≡ some params)))
guards_pass refused ends closed r n params e = ground arith

at_end_last :
    (pattern : Pattern) (last : Segment) (kept params : Params)
    → (at_end (pattern ++ last ∷ []) kept ≡ some params)
    → ⊥
at_end_last [] last kept params e = cc
at_end_last (s ∷ pattern) last kept params e = cc

first-IsRelative :
    (value first : Bytes) (later : List Bytes)
    → segments value ≡ first ∷ later
    → (first ≡ [] → ⊥)
    → IsRelative value
unfolding segments
first-IsRelative [] first later e n = absurd (n (ground arith))
first-IsRelative (c ∷ value) first later e n = elim (Bool-cases (c == b'/')) [
  | inr other ↦ other
  | inl slash ↦ absurd (n (ground arith))
]

decode_some : (s : Bytes) → (s ≡ [] → ⊥) → percent_decode s ≡ [] → ⊥
unfolding percent_decode
decode_some [] n e = n refl
decode_some (c ∷ []) n e = cc
decode_some (c ∷ h ∷ []) n e = cc
decode_some (c ∷ h ∷ l ∷ s) n e = ground arith

-- The path behind a cut is good if the whole path is.
rest-Good : (path : Bytes) → All Good (segments path) → Resolved path × All IsPlain (segments path)
rest-Good path g =
    let r = join-Resolved (segments path) (All-map (segments path) (λ s a. a.0) g) in
    (subst Resolved (join-segments path) r, All-map (segments path) (λ s a. a.1) g)

decoded_rest :
    (path first : Bytes) (later : List Bytes)
    → segments path ≡ first ∷ later
    → (first ≡ [] → ⊥)
    → All Good (segments path)
    → count_slashes (percent_decode path) ≡ count_slashes path
    → StaysBelow (percent_decode path)
decoded_rest path first later e n g c =
    let d = segments-decode (rest-Good path g).0 c in
    let split_value : segments (percent_decode path)
        ≡ percent_decode first ∷ map percent_decode later =
      d ∙ ap (map percent_decode) e in
    record {
      relative =
          first-IsRelative (percent_decode path) (percent_decode first) (map percent_decode later)
            split_value (decode_some first n);
      plain = rw d (All-map_list IsPlain percent_decode (segments path) decode-IsPlain g);
    }

length_zero : (s : Bytes) → (length s == 0) ≡ false → s ≡ [] → ⊥
length_zero [] h e = cc
length_zero (c ∷ s) h e = cc

rest_before :
    (pattern : Pattern) (last segment : Segment) (path : Bytes) (captured params : Params)
    → (match_rest true (pattern ++ last ∷ []) segment path captured ≡ some params)
    → ⊥
unfolding match_rest
rest_before pattern last segment path captured params e =
    let n =
      at_end_last pattern last (keep true captured segment.text (percent_decode path)) params in
    ground arith

match_rest-Captures :
    (segment : Segment) (path : Bytes) (captured params : Params)
    → (length (cut_slash path).0 == 0) ≡ false
    → All Good (segments path)
    → match_rest true [] segment path captured ≡ some params
    → Captures segment.text params
unfolding match_rest
match_rest-Captures segment path captured params n g e =
    elim (Bool-cases (count_slashes (percent_decode path) == count_slashes path)) [
      | inr differ ↦ absurd (ground arith)
      | inl same ↦
          let c = (==_iff (count_slashes (percent_decode path)) (count_slashes path)).0 same in
          (
            captured,
            percent_decode path,
            ground arith,
            decoded_rest path (cut_slash path).0 (later_segments (cut_slash path).1)
                (cut_segments path) (length_zero (cut_slash path).0 n) g c,
          )
    ]

module _ (name : Bytes) where
  abbrev last : Segment
  last = record { text = name; capture = rest_capture }

  -- A cut at a slash keeps what the walk relies on.
  behind_Captures :
      (behind : Option Bytes) (pattern : Pattern) (kept params : Params)
      → All Good (later_segments behind)
      → ((later : Bytes)
          → All Good (segments later)
          → match_from true (pattern ++ last ∷ []) later kept ≡ some params
          → Captures name params)
      → elim behind [
        | none ↦ at_end (pattern ++ last ∷ []) kept
        | some later ↦ match_from true (pattern ++ last ∷ []) later kept
      ]
        ≡ some params
      → Captures name params
  unfolding later_segments
  behind_Captures none pattern kept params g later e =
      absurd (at_end_last pattern last kept params e)
  behind_Captures (some path) pattern kept params g later e = later path g e

  match_from-Captures :
      (pattern : Pattern) (path : Bytes) (captured params : Params)
      → All Good (segments path)
      → match_from true (pattern ++ last ∷ []) path captured ≡ some params
      → Captures name params
  unfolding match_from
  match_from-Captures [] path captured params g e =
      match_rest-Captures last path captured params (ground arith) g (ground arith)
  match_from-Captures (segment ∷ pattern) path captured params g e =
      let (piece, behind) = cut_slash path in
      let kept =
        if binds_a_name segment.capture
        then keep true captured segment.text (percent_decode piece)
        else captured in
      let next : Option Params = elim behind [
        | none ↦ at_end (pattern ++ last ∷ []) kept
        | some later ↦ match_from true (pattern ++ last ∷ []) later kept
      ] in
      let passed =
        guards_pass (binds_a_name segment.capture && length piece == 0) (is_rest segment.capture)
          (not (accepts segment piece))
          (match_rest true (pattern ++ last ∷ []) segment path captured) next params e in
      elim passed.1 [
        | inl (ends, r) ↦ absurd (rest_before pattern last segment path captured params r)
        | inr (goes_on, n) ↦
            behind_Captures behind pattern kept params (rw (cut_segments path) at g).1
              (λ later h f. match_from-Captures pattern later kept params h f) n
      ]

-- If a path has two hexadecimal digits behind each '%', then what a last segment "<path:name>" of
-- a pattern captures of the normalised path is a value that is not empty, does not begin with a
-- '/', and of which no segment is "." or "..".
pub rest-Captures :
    (pattern : Pattern) (name path : Bytes) (params : Params)
    → has_valid_escapes path ≡ true
    → matches true
        (pattern ++ record { text = name; capture = rest_capture } ∷ [])
        (normalize_path path)
      ≡ some params
    → Captures name params
unfolding matches normalize_path
rest-Captures pattern name path params v e =
    let r = remove_dot_segments-Resolved (resolve_escapes path) (resolve_escapes-Resolved path v) in
    match_from-Captures name pattern (normalize_path path) [] params
      (All-Good (normalize_path path) r (normalize_path-IsPlain path)) e
