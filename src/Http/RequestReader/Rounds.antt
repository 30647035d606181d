-- ===== src/Http/RequestReader/Rounds.antt =====
-- The invariant rule for the loop of `next_request`.
use carafe.Base.{ℕ, zero, suc, none, some, ◌≡◌, subst}
use carafe.Http.ReaderState.{RequestResult, RequestReader, Outcome}
use carafe.Http.RequestReader.{round, rounds}

module _ {ℓ} (Inv : RequestReader → Type ℓ) (Post : RequestReader → RequestResult → Type ℓ) where
  -- A round that goes on keeps the invariant, and one that answers meets the postcondition.
  abbrev pub Keeps : Outcome → Type ℓ
  Keeps (q, none) = Inv q
  Keeps (q, some result) = Post q result

  after_round :
      (n : ℕ) (o : Outcome) (q : RequestReader) (x : RequestResult)
      → Keeps o
      → (Inv o.0 → rounds n o.0 ≡ some (q, x) → Post q x)
      → elim o.1 [ none ↦ rounds n o.0 | some result ↦ some (o.0, result) ] ≡ some (q, x)
      → Post q x
  after_round n (o, none) q x k later e = later k e
  after_round n (o, some y) q x k later e =
      let state : o ≡ q = cc in
      let answer : y ≡ x = cc in subst (Post q) answer (subst (λ z. Post z y) state k)

  pub rounds_inv :
      ((r : RequestReader) → Inv r → Keeps (round r.phase r))
      → (n : ℕ) (r q : RequestReader) (x : RequestResult) → Inv r
      → rounds n r ≡ some (q, x)
      → Post q x
  unfolding rounds
  rounds_inv keep zero r q x i e = absurd (cc)
  rounds_inv keep (suc n) r q x i e =
      let o = round r.phase r in after_round n o q x (keep r i) (λ j. rounds_inv keep n o.0 q x j) e
