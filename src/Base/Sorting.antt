-- ===== src/Base/Sorting.antt =====
-- What holds of the elements of a list that sort_with orders.
use mathlib.Core.Logic.{◌⊎◌, inl, inr}
use mathlib.Core.Bool.{Bool}
use mathlib.Core.List.{List, [], ◌∷◌}
use nightowl.Base.Tests.{Bool-cases}
use nightowl.Base.Lists.{All, Any, insert_with, sort_with}

module _ {A : Type 0} (P : A → Type 0) (le : A → A → Bool) where
  pub All-insert_with : (x : A) (xs : List A) → P x → All P xs → All P (insert_with le x xs)
  unfolding insert_with
  All-insert_with x [] hx h = (hx, tt)
  All-insert_with x (y ∷ ys) hx (hy, h) = elim (Bool-cases (le x y)) [
    | inl first ↦ rw first (hx, (hy, h))
    | inr later ↦ rw later (hy, All-insert_with x ys hx h)
  ]

  pub All-sort_with : (xs : List A) → All P xs → All P (sort_with le xs)
  unfolding sort_with
  All-sort_with [] h = tt
  All-sort_with (x ∷ xs) (hx, h) = All-insert_with x (sort_with le xs) hx (All-sort_with xs h)

  Any-insert_with : (x : A) (xs : List A) → P x ⊎ Any P xs → Any P (insert_with le x xs)
  unfolding insert_with
  Any-insert_with x [] h = h
  Any-insert_with x (y ∷ ys) h = elim (Bool-cases (le x y)) [
    | inl first ↦ rw first h
    | inr later ↦ rw later (behind (λ k. Any-insert_with x ys k) h)
  ]
    where
      behind : {Q : Type 0} → (P x ⊎ Any P ys → Q) → P x ⊎ (P y ⊎ Any P ys) → P y ⊎ Q
      behind f (inl hx) = inr (f (inl hx))
      behind f (inr (inl hy)) = inl hy
      behind f (inr (inr h)) = inr (f (inr h))

  pub Any-sort_with : (xs : List A) → Any P xs → Any P (sort_with le xs)
  unfolding sort_with
  Any-sort_with [] h = absurd h
  Any-sort_with (x ∷ xs) (inl hx) = Any-insert_with x (sort_with le xs) (inl hx)
  Any-sort_with (x ∷ xs) (inr h) = Any-insert_with x (sort_with le xs) (inr (Any-sort_with xs h))

  insert_with-All : (x : A) (xs : List A) → All P (insert_with le x xs) → P x × All P xs
  unfolding insert_with
  insert_with-All x [] h = h
  insert_with-All x (y ∷ ys) h = elim (Bool-cases (le x y)) [
    | inl first ↦ rw first at h
    | inr later ↦
        let (hy, hs) : P y × All P (insert_with le x ys) = rw later at h in
        let (hx, rest) = insert_with-All x ys hs in (hx, (hy, rest))
  ]

  pub sort_with-All : (xs : List A) → All P (sort_with le xs) → All P xs
  unfolding sort_with
  sort_with-All [] h = tt
  sort_with-All (x ∷ xs) h =
      let (hx, hs) = insert_with-All x (sort_with le xs) h in (hx, sort_with-All xs hs)
