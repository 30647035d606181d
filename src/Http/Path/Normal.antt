-- ===== src/Http/Path/Normal.antt =====
-- What `normalize_path` of src/http/path.cpp promises for every path.
use carafe.Base.{
  ℕ, true, false, [], ◌∷◌, ◌≡◌, refl, sym, ap, ◌∙◌, inl, inr, arith, ◌==◌, Bytes, Bool-cases, All,
  All-map, ==_iff, subst,
}
use carafe.Http.Path.{
  escape, walked, segments, walk_body, resolve_escapes, remove_dot_segments, normalize_path,
}
use carafe.Http.Path.Segments.{NoSlash, segments-NoSlash, segments-slash}
use carafe.Http.Path.Escapes.{
  Resolved, done, plain, escaped, resolve_escapes-Resolved, Resolved-stable, join-Resolved,
  segments-Resolved,
}
use carafe.Http.RequestParser.{has_valid_escapes}
use carafe.Http.Path.Dots.{IsPlain, empty-IsPlain, walked-All, segments-walk_body, walk_body-plain}

walk_body-IsPlain : (body : Bytes) → All IsPlain (segments (walk_body body))
walk_body-IsPlain body =
    rw (segments-walk_body body)
      (All-map (walked body) (λ s a. a.1) (walked-All NoSlash tt body (segments-NoSlash body)))

pub remove_dot_segments-IsPlain : (path : Bytes) → All IsPlain (segments (remove_dot_segments path))
unfolding remove_dot_segments
remove_dot_segments-IsPlain [] = walk_body-IsPlain []
remove_dot_segments-IsPlain (c ∷ path) = elim (Bool-cases (c == b'/')) [
  | inl slash ↦ rw slash (unfold segments in (empty-IsPlain, walk_body-IsPlain path))
  | inr other ↦ rw other (walk_body-IsPlain (c ∷ path))
]

-- A path without dot segments is left as it is.
pub remove_dot_segments-plain :
    (path : Bytes) → All IsPlain (segments path) → remove_dot_segments path ≡ path
unfolding remove_dot_segments
remove_dot_segments-plain [] ps = walk_body-plain [] ps
remove_dot_segments-plain (c ∷ path) ps = elim (Bool-cases (c == b'/')) [
  | inl slash ↦
      let same : b'/' ≡ c = sym ((==_iff c b'/').0 slash) in
      let slashed : All IsPlain (segments (b'/' ∷ path)) =
        subst (λ d. All IsPlain (segments (d ∷ path))) (sym same) ps in
      let (first, later) = rw (segments-slash [] path tt) at slashed in
      rw slash (ap (◌∷◌ b'/') (walk_body-plain path later) ∙ ap (λ d. d ∷ path) same)
  | inr other ↦ rw other (walk_body-plain (c ∷ path) ps)
]

-- No segment of a normalised path is "." or "..", whatever the path was.
pub normalize_path-IsPlain : (path : Bytes) → All IsPlain (segments (normalize_path path))
unfolding normalize_path
normalize_path-IsPlain path = remove_dot_segments-IsPlain (resolve_escapes path)

resolve_escapes-slash : (path : Bytes) → resolve_escapes (b'/' ∷ path) ≡ b'/' ∷ resolve_escapes path
unfolding resolve_escapes escape
resolve_escapes-slash [] = refl
resolve_escapes-slash (c ∷ []) = refl
resolve_escapes-slash (c ∷ d ∷ path) = refl

-- A normalised absolute path is a '/' before what the walk keeps of the rest, whose escapes are
-- resolved: the root's slash is never lost, however many ".." segments follow.
pub normalize_path-absolute :
    (path : Bytes) → normalize_path (b'/' ∷ path) ≡ b'/' ∷ walk_body (resolve_escapes path)
unfolding normalize_path remove_dot_segments
normalize_path-absolute path = rw (resolve_escapes-slash path) refl

walk_body-Resolved : (body : Bytes) → Resolved body → Resolved (walk_body body)
unfolding walk_body walked
walk_body-Resolved body r =
    join-Resolved (walked body)
      (All-map (walked body) (λ s a. a.0) (walked-All Resolved done body (segments-Resolved r)))

slash_not_percent : (c : ℕ) → (c == b'/') ≡ true → (c == b'%') ≡ false
slash_not_percent c h = ground arith

behind : {c : ℕ} {path : Bytes} → (c == b'%') ≡ false → Resolved (c ∷ path) → Resolved path
behind n (plain c s m r) = r
behind n (escaped high low h l m r) = absurd (cc)

pub remove_dot_segments-Resolved :
    (path : Bytes) → Resolved path → Resolved (remove_dot_segments path)
unfolding remove_dot_segments
remove_dot_segments-Resolved [] r = walk_body-Resolved [] r
remove_dot_segments-Resolved (c ∷ path) r = elim (Bool-cases (c == b'/')) [
  | inl slash ↦ rw slash (
      plain b'/' (walk_body path) refl
        (walk_body-Resolved path (behind (slash_not_percent c slash) r)))
  | inr other ↦ rw other (walk_body-Resolved (c ∷ path) r)
]

-- Normalising twice is normalising once, if the path has two hexadecimal digits behind each '%'.
pub normalize_path_idempotent :
    (path : Bytes)
    → has_valid_escapes path ≡ true
    → normalize_path (normalize_path path) ≡ normalize_path path
unfolding normalize_path
normalize_path_idempotent path v =
    let resolved = resolve_escapes path in
    let r = remove_dot_segments-Resolved resolved (resolve_escapes-Resolved path v) in
    rw (Resolved-stable r) (
      remove_dot_segments-plain (remove_dot_segments resolved)
        (remove_dot_segments-IsPlain resolved))
