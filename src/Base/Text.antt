-- ===== src/Base/Text.antt =====
-- Byte strings, and the operations of `std::string_view` that the source calls. A byte is the number
-- of its `unsigned char`.
use Prim.Native.Nat.{ℕ, suc, ◌+◌}
use Prim.Native.Char.{code}
use Prim.Native.String.{String}
use mathlib.Core.Path.{◌≡◌, refl, ap}
use mathlib.Core.Logic.{◌↔◌, ◌⊎◌, inl, inr}
use mathlib.Core.Bool.{Bool, true, false, ◌&&◌}
use mathlib.Core.List.{List, [], ◌∷◌, ◌++◌}
use mathlib.Core.Option
use mathlib.Core.Option.{Option, none, some}
use native.Mathlib.Omega.{arith}
use carafe.Base.Tests.{◌==◌, if◌then◌else◌, Bool-cases, ==_iff, ==_refl}
use carafe.Base.Lists.{length, take, drop}

abbrev pub Bytes : Type 0
Bytes = List ℕ

-- The bytes of a literal; every literal of the source is ASCII.
abbrev pub codes : String → Bytes
codes String.[] = []
codes (String.◌∷◌ c s) = code c ∷ codes s

-- `a == b` on two texts.
unfoldable pub equal : Bytes → Bytes → Bool
equal [] [] = true
equal [] (y ∷ ys) = false
equal (x ∷ xs) [] = false
equal (x ∷ xs) (y ∷ ys) = x == y && equal xs ys

pub equal_iff : (a b : Bytes) → (equal a b ≡ true) ↔ (a ≡ b)
unfolding equal
equal_iff [] [] = (λ _. refl, λ _. refl)
equal_iff [] (y ∷ ys) = ground arith
equal_iff (x ∷ xs) [] = ground arith
equal_iff (x ∷ xs) (y ∷ ys) = ground (arith, equal_iff xs ys)

pub equal_refl : (a : Bytes) → equal a a ≡ true
equal_refl a = (equal_iff a a).1 refl

-- `s.find(c)`; `none` is `npos`.
unfoldable pub find : ℕ → Bytes → Option ℕ
find c [] = none
find c (x ∷ xs) = if x == c then some 0 else Option.map suc (find c xs)

-- `s.find(c, pos)`
unfoldable pub find_from : ℕ → Bytes → ℕ → Option ℕ
unfolding find
find_from c s pos = Option.map (λ i. pos + i) (find c (drop pos s))

-- `s.substr(pos, n)`; the source never calls it with `pos > s.size()`, where it throws.
abbrev pub substr : Bytes → ℕ → ℕ → Bytes
substr s pos n = take n (drop pos s)

pub drop-suc_length : (a : Bytes) (c : ℕ) (b : Bytes) → drop (length a + 1) (a ++ c ∷ b) ≡ b
drop-suc_length [] c b = refl
drop-suc_length (x ∷ a) c b =
    let e : suc (length a) + 1 ≡ suc (length a + 1) = omega arith in rw e (drop-suc_length a c b)

-- The first occurrence of a byte splits the text.
pub find_cases :
    (c : ℕ) (s : Bytes)
    → (find c s ≡ none) ⊎ ((a : Bytes) × (b : Bytes) × (s ≡ a ++ c ∷ b) × (find c a ≡ none))
unfolding find
find_cases c [] = inl refl
find_cases c (x ∷ s) = elim (Bool-cases (x == c)) [
  | inl e ↦ inr ([], s, ap (λ y. y ∷ s) ((==_iff x c).0 e), refl)
  | inr e ↦ elim (find_cases c s) [
    | inl n ↦ inl (rw (e, n))
    | inr (a, b, p, n) ↦ inr (x ∷ a, b, ap (◌∷◌ x) p, rw (e, n))
  ]
]

pub find-append_self :
    (c : ℕ) (a b : Bytes) → find c a ≡ none → find c (a ++ c ∷ b) ≡ some (length a)
unfolding find
find-append_self c [] b n = rw (==_refl c)
find-append_self c (x ∷ a) b n = ground (arith, find-append_self c a b)

pub find_from-append_self :
    (c : ℕ) (a b : Bytes)
    → find_from c (a ++ c ∷ b) (length a + 1) ≡ Option.map (λ i. length a + 1 + i) (find c b)
unfolding find_from
find_from-append_self c a b = rw (drop-suc_length a c b)

pub find-append : (c : ℕ) (a b : Bytes) → find c a ≡ none → find c b ≡ none → find c (a ++ b) ≡ none
unfolding find
find-append c [] b n m = m
find-append c (x ∷ a) b n m = ground (arith, find-append c a b)
