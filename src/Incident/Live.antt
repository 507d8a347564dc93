-- ===== src/Incident/Live.antt =====
-- What a search finds among the rows that an `UPDATE` changes under a second condition.
use nightowl.Base.{
  inl, inr, ◌≡◌, ap, Bool, true, ◌&&◌, List, [], ◌∷◌, Option, some, find, update, Bool-cases,
}
use mathlib.Core.Option
use nightowl.Schema.{Incident}

first-passes :
    (q : Incident → Bool) (y x : Incident)
    → ◌≡◌ {A = Option Incident} (some y) (some x)
    → q x ≡ true
    → q y ≡ true
first-passes q y x e live = cc

pub find-both :
    (p q : Incident → Bool) (xs : List Incident) {x : Incident}
    → find p xs ≡ some x
    → q x ≡ true
    → find (λ i. p i && q i) xs ≡ some x
find-both p q [] h live = cc
find-both p q (y ∷ ys) {x} h live = elim (Bool-cases (p y)) [
  | inl hit ↦ let e = rw hit at h in rw (hit, first-passes q y x e live) e
  | inr miss ↦ rw miss (find-both p q ys (rw miss at h) live)
]

pub find-update_both :
    (p q : Incident → Bool) (f : Incident → Incident) (xs : List Incident) {x : Incident}
    → ((i : Incident) → p (f i) ≡ p i)
    → find p xs ≡ some x
    → q x ≡ true
    → find p (update (λ i. p i && q i) f xs) ≡ some (f x)
find-update_both p q f [] keeps h live = cc
find-update_both p q f (y ∷ ys) {x} keeps h live = elim (Bool-cases (p y)) [
  | inl hit ↦
      let e = rw hit at h in rw (hit, first-passes q y x e live, keeps y, hit) (ap (Option.map f) e)
  | inr miss ↦ rw (miss, miss) (find-update_both p q f ys keeps (rw miss at h) live)
]
