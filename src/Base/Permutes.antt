-- ===== src/Base/Permutes.antt =====
-- Permutations of a list, by exchanges of neighbours.
use mathlib.Core.List.{List, [], ◌∷◌}

pub data Permutes {ℓ} {A : Type ℓ} : List A → List A → Type ℓ where
  nil : Permutes [] []
  cons : (a : A) {xs ys : List A} → Permutes xs ys → Permutes (a ∷ xs) (a ∷ ys)
  swap : (a b : A) (xs : List A) → Permutes (a ∷ b ∷ xs) (b ∷ a ∷ xs)
  trans : {xs ys zs : List A} → Permutes xs ys → Permutes ys zs → Permutes xs zs

module _ {ℓ} {A : Type ℓ} where
  pub identity : (xs : List A) → Permutes xs xs
  identity [] = nil
  identity (x ∷ xs) = cons x (identity xs)
