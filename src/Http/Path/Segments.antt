-- ===== src/Http/Path/Segments.antt =====
-- The segments of a path in src/http/path.cpp: splitting at '/' and joining undo each other.
use carafe.Base.{
  ℕ, false, List, [], ◌∷◌, ◌++◌, ◌≡◌, refl, sym, ap, ◌∙◌, inl, inr, ◌==◌, Bytes, Bool-cases, All,
  ==_iff,
}
use carafe.Http.Path.{prepend, segments, join}

abbrev pub NoSlash : Bytes → Type 0
NoSlash = All (λ c. (c == b'/') ≡ false)

-- Every path has a first segment.
abbrev pub Split : Bytes → Type 0
Split path = (first : Bytes) × (rest : List Bytes) × (segments path ≡ first ∷ rest)

pub split : (path : Bytes) → Split path
unfolding segments
split [] = ([], [], refl)
split (c ∷ path) = elim (Bool-cases (c == b'/')) [
  | inl slash ↦ ([], segments path, rw slash refl)
  | inr other ↦ let (first, rest, e) = split path in (c ∷ first, rest, rw (other, e) refl)
]

prepend-NoSlash :
    (c : ℕ) (xs : List Bytes) → (c == b'/') ≡ false → All NoSlash xs → All NoSlash (prepend c xs)
prepend-NoSlash c [] n a = ((n, tt), tt)
prepend-NoSlash c (x ∷ xs) n (a, later) = ((n, a), later)

pub segments-NoSlash : (path : Bytes) → All NoSlash (segments path)
unfolding segments
segments-NoSlash [] = (tt, tt)
segments-NoSlash (c ∷ path) = elim (Bool-cases (c == b'/')) [
  | inl slash ↦ rw slash (tt, segments-NoSlash path)
  | inr other ↦ rw other (prepend-NoSlash c (segments path) other (segments-NoSlash path))
]

pub segments-slash : (x path : Bytes) → NoSlash x → segments (x ++ b'/' ∷ path) ≡ x ∷ segments path
unfolding segments
segments-slash [] path n = refl
segments-slash (c ∷ x) path (n, ns) = rw (n, segments-slash x path ns) refl

pub segments-single : (x : Bytes) → NoSlash x → segments x ≡ x ∷ []
unfolding segments
segments-single [] n = refl
segments-single (c ∷ x) (n, ns) = rw (n, segments-single x ns) refl

pub segments-join :
    (x : Bytes) (xs : List Bytes) → All NoSlash (x ∷ xs) → segments (join (x ∷ xs)) ≡ x ∷ xs
unfolding join
segments-join x [] (n, ns) = segments-single x n
segments-join x (y ∷ xs) (n, ns) =
    segments-slash x (join (y ∷ xs)) n ∙ ap (◌∷◌ x) (segments-join y xs ns)

join-prepend : (c : ℕ) (x : Bytes) (xs : List Bytes) → join (prepend c (x ∷ xs)) ≡ c ∷ join (x ∷ xs)
unfolding join
join-prepend c x [] = refl
join-prepend c x (y ∷ xs) = refl

join-nil : (x : Bytes) (xs : List Bytes) → join ([] ∷ x ∷ xs) ≡ b'/' ∷ join (x ∷ xs)
unfolding join
join-nil x xs = refl

pub join-segments : (path : Bytes) → join (segments path) ≡ path
unfolding segments
join-segments [] = unfold join in refl
join-segments (c ∷ path) =
    let (x, xs, e) = split path in
    let rest : join (x ∷ xs) ≡ path = ap join (sym e) ∙ join-segments path in
    elim (Bool-cases (c == b'/')) [
      | inl slash ↦
          let same : b'/' ≡ c = sym ((==_iff c b'/').0 slash) in
          rw (slash, e) (join-nil x xs ∙ ap (◌∷◌ b'/') rest ∙ ap (λ d. d ∷ path) same)
      | inr other ↦ rw (other, e) (join-prepend c x xs ∙ ap (◌∷◌ c) rest)
    ]

-- Bytes in front of a path that are no slash go to its first segment.
pub segments-append :
    (s path : Bytes) → NoSlash s → segments (s ++ path) ≡ (s ++ (split path).0) ∷ (split path).1
unfolding segments
segments-append [] path n = (split path).2
segments-append (c ∷ s) path (n, ns) = rw (n, segments-append s path ns) refl
