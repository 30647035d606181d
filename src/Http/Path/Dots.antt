-- ===== src/Http/Path/Dots.antt =====
-- `remove_dot_segments` of src/http/path.cpp: what the walk keeps.
use carafe.Base.{
  false, List, [], ◌∷◌, ◌++◌, ◌≡◌, refl, ◌∙◌, inl, inr, Bytes, codes, equal, Bool-cases, All,
  All-append, All-map, append-nil, append_assoc,
}
use carafe.Http.Path.{
  segments, join, start, walked, Walk, pop_back, walk_segment, walk, closed, walk_body,
}
use carafe.Http.Path.Segments.{NoSlash, split, join-segments, segments-NoSlash, segments-join}

-- A segment that names neither the directory it stands in nor the one above.
abbrev pub IsPlain : Bytes → Type 0
IsPlain segment = (equal segment (codes ".") ≡ false) × (equal segment (codes "..") ≡ false)

module _ (P : Bytes → Type 0) where
  pop_back-All : (kept : List Bytes) → All P kept → All P (pop_back kept)
  unfolding pop_back
  pop_back-All [] a = tt
  pop_back-All (x ∷ []) a = tt
  pop_back-All (x ∷ y ∷ kept) (a, later) = (a, pop_back-All (y ∷ kept) later)

module _ (P Q : Bytes → Type 0) (keeps : (s : Bytes) → P s → IsPlain s → Q s) where
  walk_segment-All : (w : Walk) (s : Bytes) → P s → All Q w.kept → All Q (walk_segment w s).kept
  unfolding walk_segment
  walk_segment-All w s p a = elim (Bool-cases (equal s (codes "."))) [
    | inl one ↦ rw one a
    | inr not_one ↦ elim (Bool-cases (equal s (codes ".."))) [
      | inl two ↦ rw (not_one, two) (pop_back-All Q w.kept a)
      | inr not_two ↦
          rw (not_one, not_two) (All-append Q w.kept (s ∷ []) a (keeps s p (not_one, not_two), tt))
    ]
  ]

  pub walk-All : (xs : List Bytes) (w : Walk) → All P xs → All Q w.kept → All Q (walk w xs).kept
  unfolding walk
  walk-All [] w ps a = a
  walk-All (x ∷ xs) w (p, ps) a = walk-All xs (walk_segment w x) ps (walk_segment-All w x p a)

-- What is joined in the end is never nothing.
abbrev IsSome : List Bytes → Type 0
IsSome xs = (x : Bytes) × (rest : List Bytes) × (xs ≡ x ∷ rest)

append-IsSome : (xs : List Bytes) (y : Bytes) → IsSome (xs ++ y ∷ [])
append-IsSome [] y = (y, [], refl)
append-IsSome (x ∷ xs) y = (x, xs ++ y ∷ [], refl)

walk_segment-IsSome : (w : Walk) (s : Bytes) → IsSome (closed (walk_segment w s))
unfolding walk_segment
walk_segment-IsSome w s = elim (Bool-cases (equal s (codes "."))) [
  | inl one ↦ rw one (append-IsSome w.kept [])
  | inr not_one ↦ elim (Bool-cases (equal s (codes ".."))) [
    | inl two ↦ rw (not_one, two) (append-IsSome (pop_back w.kept) [])
    | inr not_two ↦ rw (not_one, not_two) (append-IsSome w.kept s)
  ]
]

walk-IsSome : (xs : List Bytes) (x : Bytes) (w : Walk) → IsSome (closed (walk w (x ∷ xs)))
unfolding walk
walk-IsSome [] x w = walk_segment-IsSome w x
walk-IsSome (y ∷ xs) x w = walk-IsSome xs y (walk_segment w x)

closed-All : (Q : Bytes → Type 0) (w : Walk) → Q [] → All Q w.kept → All Q (closed w)
closed-All Q w q a = elim (Bool-cases w.ended_on_dots) [
  | inl dots ↦ rw dots (All-append Q w.kept ([] ∷ []) a (q, tt))
  | inr plain ↦ rw plain a
]

pub empty-IsPlain : IsPlain []
unfolding equal
empty-IsPlain = (refl, refl)

module _ (P : Bytes → Type 0) (empty : P []) where
  pub walked-All : (body : Bytes) → All P (segments body) → All (λ s. P s × IsPlain s) (walked body)
  unfolding walked
  walked-All body ps =
      let Q : Bytes → Type 0 = λ s. P s × IsPlain s in
      closed-All Q (walk start (segments body)) (empty, empty-IsPlain)
        (walk-All P Q (λ s p plain. (p, plain)) (segments body) start ps tt)

pub walked-IsSome : (body : Bytes) → IsSome (walked body)
unfolding walked
walked-IsSome body = let (x, xs, e) = split body in rw e (walk-IsSome xs x start)

segments-join_some : (xs : List Bytes) → IsSome xs → All NoSlash xs → segments (join xs) ≡ xs
segments-join_some [] (x, rest, e) n = absurd (cc)
segments-join_some (x ∷ xs) s n = segments-join x xs n

-- What comes out of a walk is split into what the walk kept.
pub segments-walk_body : (body : Bytes) → segments (walk_body body) ≡ walked body
unfolding walk_body walked
segments-walk_body body =
    segments-join_some (walked body) (walked-IsSome body)
      (All-map (walked body) (λ s a. a.0) (walked-All NoSlash tt body (segments-NoSlash body)))

pub walk-plain :
    (xs : List Bytes) (kept : List Bytes)
    → All IsPlain xs
    → walk (record { kept = kept; ended_on_dots = false }) xs
      ≡ record { kept = kept ++ xs; ended_on_dots = false }
unfolding walk walk_segment
walk-plain [] kept ps = rw (append-nil kept) refl
walk-plain (x ∷ xs) kept (p, ps) =
    rw (p.0, p.1) (walk-plain xs (kept ++ x ∷ []) ps ∙ rw (append_assoc kept (x ∷ []) xs) refl)

-- A walk over segments that are plain joins them again.
pub walk_body-plain : (body : Bytes) → All IsPlain (segments body) → walk_body body ≡ body
unfolding walk_body
walk_body-plain body ps = rw (walk-plain (segments body) [] ps) (join-segments body)
