-- ===== src/Base/Bags.antt =====
-- Numbers collected without an order: a quotient of lists.
use Prim.Native.Nat.{ℕ}
use mathlib.Core.List.{List, ◌∷◌}
use mathlib.Core.Path.{◌≡◌, refl}
use mathlib.Core.Quot
use mathlib.Core.Quot.{Quot, Quot-set}
use native.Mathlib.Omega.{arith}
use carafe.Base.Sums.{count}

-- Two lists hold the same items, as often.
abbrev pub SameItems : List ℕ → List ℕ → Type 0
SameItems xs ys = (n : ℕ) → count n xs ≡ count n ys

abbrev pub Bag : Type 0
Bag = Quot SameItems

abbrev pub bag : List ℕ → Bag
bag xs = Quot.mk xs

SameItems-cons : (x : ℕ) (xs ys : List ℕ) → SameItems xs ys → SameItems (x ∷ xs) (x ∷ ys)
SameItems-cons x xs ys h n = omega (arith, h n)

pub put : ℕ → Bag → Bag
put x = Quot.lift Quot-set (λ xs. bag (x ∷ xs)) (λ xs ys h. Quot.sound (SameItems-cons x xs ys h))

pub put-bag : (x : ℕ) (xs : List ℕ) → put x (bag xs) ≡ bag (x ∷ xs)
unfolding put
put-bag x xs = refl

pub bag-eq : (xs ys : List ℕ) → SameItems xs ys → bag xs ≡ bag ys
bag-eq xs ys h = Quot.sound h
