-- ===== src/Base/Find.antt =====
-- What a search finds in a list that was mapped, selected from, updated or extended.
use mathlib.Core.Path.{◌≡◌, refl}
use mathlib.Core.Bool.{Bool, true, false, ◌&&◌}
use mathlib.Core.Logic.{inl, inr}
use mathlib.Core.Option.{Option, none, some}
use mathlib.Core.Option
use mathlib.Core.List.{List, [], ◌∷◌, ◌++◌, map}
use native.Mathlib.Omega.{arith}
use nightowl.Base.Tests.{Bool-cases}
use nightowl.Base.Lists.{find, select, update}

module _ {ℓ} {A : Type ℓ} where
  pub find-ext : (p q : A → Bool) (xs : List A) → ((x : A) → p x ≡ q x) → find p xs ≡ find q xs
  find-ext p q [] h = refl
  find-ext p q (x ∷ xs) h = rw (h x, find-ext p q xs h)

  pub find-select :
      (p q : A → Bool) (xs : List A) → find p (select q xs) ≡ find (λ x. q x && p x) xs
  find-select p q [] = refl
  find-select p q (x ∷ xs) = ground (arith, find-select p q xs)

  pub find-append_some :
      (p : A → Bool) (xs ys : List A) {x : A} → find p xs ≡ some x → find p (xs ++ ys) ≡ some x
  find-append_some p [] ys h = cc
  find-append_some p (y ∷ xs) ys h = elim (Bool-cases (p y)) [
    | inl hit ↦ rw hit (rw hit at h)
    | inr miss ↦ rw miss (find-append_some p xs ys (rw miss at h))
  ]

  -- A new row at the end is found if it is the first such row, and only then.
  pub find-append_new :
      (p : A → Bool) (xs : List A) (y : A)
      → find p xs ≡ none
      → p y ≡ true
      → find p (xs ++ y ∷ []) ≡ some y
  find-append_new p [] y h hit = rw hit
  find-append_new p (x ∷ xs) y h hit = elim (Bool-cases (p x)) [
    | inl old ↦ absurd (some≢none (rw old at h))
    | inr miss ↦ rw miss (find-append_new p xs y (rw miss at h) hit)
  ]
    where
      some≢none : ◌≡◌ {A = Option A} (some x) none → ⊥
      some≢none e = cc

  pub find-append_miss :
      (p : A → Bool) (xs : List A) (y : A) → p y ≡ false → find p (xs ++ y ∷ []) ≡ find p xs
  find-append_miss p [] y h = rw h
  find-append_miss p (x ∷ xs) y h = rw (find-append_miss p xs y h)

  -- An update of rows that `p` does not look for, and that stay such rows.
  pub find-update_other :
      (p q : A → Bool) (f : A → A) (xs : List A)
      → ((x : A) → q x ≡ true → p x ≡ false)
      → ((x : A) → q x ≡ true → p (f x) ≡ false)
      → find p (update q f xs) ≡ find p xs
  find-update_other p q f [] before after = refl
  find-update_other p q f (x ∷ xs) before after = elim (Bool-cases (q x)) [
    | inl hit ↦ rw (hit, after x hit, before x hit) (find-update_other p q f xs before after)
    | inr miss ↦ rw (miss, find-update_other p q f xs before after)
  ]

  -- An update of the rows that `p` looks for.
  pub find-update_same :
      (p : A → Bool) (f : A → A) (xs : List A)
      → ((x : A) → p (f x) ≡ p x)
      → find p (update p f xs) ≡ Option.map f (find p xs)
  find-update_same p f [] keeps = refl
  find-update_same p f (x ∷ xs) keeps = elim (Bool-cases (p x)) [
    | inl hit ↦ rw (hit, keeps x, hit)
    | inr miss ↦ rw (miss, miss) (find-update_same p f xs keeps)
  ]

module _ {ℓ κ} {A : Type ℓ} {B : Type κ} where
  pub find-map :
      (p : B → Bool) (f : A → B) (xs : List A)
      → find p (map f xs) ≡ Option.map f (find (λ x. p (f x)) xs)
  find-map p f [] = refl
  find-map p f (x ∷ xs) = elim (Bool-cases (p (f x))) [
    | inl hit ↦ rw hit
    | inr miss ↦ rw miss (find-map p f xs)
  ]
