-- ===== src/Base/Lists.antt =====
-- Lists measured and indexed by native numbers, filtered by Boolean tests, and a predicate that
-- holds of every entry.
use Prim.Native.Nat.{ℕ, zero, suc, ◌+◌, ◌≤◌}
use mathlib.Core.Path.{◌≡◌}
use mathlib.Core.Bool.{Bool}
use mathlib.Core.List.{List, [], ◌∷◌, ◌++◌}
use native.Mathlib.Omega.{arith}
use paracetamol.Base.Tests.{if◌then◌else◌}

module _ {ℓ} {A : Type ℓ} where
  abbrev pub length : List A → ℕ
  length [] = 0
  length (x ∷ xs) = suc (length xs)

  abbrev pub take : ℕ → List A → List A
  take zero xs = []
  take (suc n) [] = []
  take (suc n) (x ∷ xs) = x ∷ take n xs

  abbrev pub filter : (A → Bool) → List A → List A
  filter p [] = []
  filter p (x ∷ xs) = let rest = filter p xs in if p x then x ∷ rest else rest

  pub length-append : (xs ys : List A) → length (xs ++ ys) ≡ length xs + length ys
  length-append [] ys = omega arith
  length-append (x ∷ xs) ys = omega (arith, length-append xs ys)

  pub length-filter-le : (p : A → Bool) (xs : List A) → length (filter p xs) ≤ length xs
  length-filter-le p [] = omega arith
  length-filter-le p (x ∷ xs) = ground (arith, length-filter-le p xs)

  module _ {κ} (P : A → Type κ) where
    -- every entry satisfies `P`
    abbrev pub All : List A → Type κ
    All xs = elim xs [ [] ↦ Unit | x ∷ (rest → holds) ↦ P x × holds ]

    pub All-append : (xs ys : List A) → All xs → All ys → All (xs ++ ys)
    All-append [] ys front back = back
    All-append (x ∷ xs) ys front back = (front.0, All-append xs ys front.1 back)
