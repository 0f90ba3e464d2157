-- ===== src/Base/Result.antt =====
-- A value or the error that stopped the computation, chained by `do` blocks.
use mathlib.Core.Path.{◌≡◌, refl}
use mathlib.Core.Logic.{◌⊎◌, inl, inr}

module _ {ℓ} where
  pub data Result (E A : Type ℓ) : Type ℓ where
    ok : (value : A) → Result E A
    err : (error : E) → Result E A

  infixl 5 ◌>>=◌
  abbrev pub ◌>>=◌ : {E A B : Type ℓ} → Result E A → (A → Result E B) → Result E B
  r >>= next = elim r [ ok a ↦ next a | err e ↦ err e ]

  pub Result-cases :
      {E A : Type ℓ} (r : Result E A) → ((a : A) × (r ≡ ok a)) ⊎ ((e : E) × (r ≡ err e))
  Result-cases (ok a) = inl (a, refl)
  Result-cases (err e) = inr (e, refl)
