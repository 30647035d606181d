-- ===== src/Server/Pattern/Agree.antt =====
-- `matches` of src/server/router.cpp answers alike with and without a place for the captures.
use carafe.Base.{
  Bool, true, false, Option, none, some, [], ◌∷◌, ◌≡◌, refl, arith, Bytes, if◌then◌else◌,
}
use carafe.Http.Request.{Params}
use carafe.Server.Pattern.{
  Pattern, Segment, percent_decode, cut_slash, match_rest, match_from, at_end, keep, matches,
}

abbrev pub is_match : Option Params → Bool
is_match none = false
is_match (some captured) = true

at_end_agrees :
    (pattern : Pattern) (a b : Params) → is_match (at_end pattern a) ≡ is_match (at_end pattern b)
at_end_agrees [] a b = refl
at_end_agrees (segment ∷ pattern) a b = refl

match_rest_agrees :
    (pattern : Pattern) (segment : Segment) (path : Bytes) (a b : Params)
    → is_match (match_rest true pattern segment path a)
      ≡ is_match (match_rest false pattern segment path b)
unfolding match_rest
match_rest_agrees pattern segment path a b =
    ground (arith, at_end_agrees pattern (keep true a segment.text (percent_decode path)) b)

guards_agree :
    (refused ends closed : Bool) (r r' n n' : Option Params)
    → is_match r ≡ is_match r'
    → is_match n ≡ is_match n'
    → is_match (if refused then none else if ends then r else if closed then none else n)
      ≡ is_match (if refused then none else if ends then r' else if closed then none else n')
guards_agree true ends closed r r' n n' e f = refl
guards_agree false true closed r r' n n' e f = e
guards_agree false false true r r' n n' e f = refl
guards_agree false false false r r' n n' e f = f

behind_agrees :
    (behind : Option Bytes) (pattern : Pattern) (a b : Params)
    → ((later : Bytes)
        → is_match (match_from true pattern later a) ≡ is_match (match_from false pattern later b))
    → is_match
        (elim behind [ none ↦ at_end pattern a | some later ↦ match_from true pattern later a ])
      ≡ is_match
          (elim behind [ none ↦ at_end pattern b | some later ↦ match_from false pattern later b ])
behind_agrees none pattern a b f = at_end_agrees pattern a b
behind_agrees (some later) pattern a b f = f later

match_from_agrees :
    (pattern : Pattern) (path : Bytes) (a b : Params)
    → is_match (match_from true pattern path a) ≡ is_match (match_from false pattern path b)
unfolding match_from
match_from_agrees [] path a b = refl
match_from_agrees (segment ∷ pattern) path a b =
    guards_agree _ _ _ _ _ _ _ (match_rest_agrees pattern segment path a b)
      (behind_agrees (cut_slash path).1 pattern _ _ (λ later. match_from_agrees pattern later _ _))

-- `matches` answers the same whether or not it is given a place for the captures.
pub matches_agrees :
    (pattern : Pattern) (path : Bytes)
    → is_match (matches true pattern path) ≡ is_match (matches false pattern path)
unfolding matches
matches_agrees pattern path = match_from_agrees pattern path [] []
