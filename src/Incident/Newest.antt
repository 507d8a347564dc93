-- ===== src/Incident/Newest.antt =====
-- Incidents sorted by the time of their creation, where no two were created together.
use nightowl.Base.{
  ◌<◌, ◌≡◌, ◌≢◌, refl, ap, ◌∙◌, inl, inr, Bool, true, false, List, [], ◌∷◌, All, arith, Bool-cases,
  if◌then◌else◌, insert_with, sort_with,
}
use nightowl.Base.Sorting.{All-insert_with, All-sort_with}
use nightowl.Schema.{Incident}
use nightowl.Incident.Listing.{newest_first}

-- No two incidents of the list have the same time of creation.
abbrev pub AreApart : List Incident → Type 0
AreApart [] = Unit
AreApart (i ∷ is) = All (λ j. i.created_at ≢ j.created_at) is × AreApart is

-- Each incident of the list was created after all that follow.
abbrev pub IsNewestFirst : List Incident → Type 0
IsNewestFirst [] = Unit
IsNewestFirst (i ∷ is) = All (λ j. j.created_at < i.created_at) is × IsNewestFirst is

module _ (tie : Incident → Incident → Bool) where
  before :
      (i j : Incident)
      → newest_first tie i j ≡ true
      → i.created_at ≢ j.created_at
      → j.created_at < i.created_at
  before i j h apart = ground (arith, h, apart)

  behind :
      (i j : Incident)
      → newest_first tie i j ≡ false
      → i.created_at ≢ j.created_at
      → i.created_at < j.created_at
  behind i j h apart = ground (arith, h, apart)

  older :
      (i j : Incident) (is : List Incident)
      → j.created_at < i.created_at
      → All (λ k. k.created_at < j.created_at) is
      → All (λ k. k.created_at < i.created_at) is
  older i j [] h hs = tt
  older i j (k ∷ is) h (hk, hs) = (omega (arith, h, hk), older i j is h hs)

  insert-IsNewestFirst :
      (x : Incident) (xs : List Incident)
      → All (λ y. x.created_at ≢ y.created_at) xs
      → IsNewestFirst xs
      → IsNewestFirst (insert_with (newest_first tie) x xs)
  unfolding insert_with
  insert-IsNewestFirst x [] apart h = (tt, tt)
  insert-IsNewestFirst x (y ∷ ys) (xy, apart) (hy, h) = elim (Bool-cases (newest_first tie x y)) [
    | inl first ↦ rw first (((before x y first xy), older x y ys (before x y first xy) hy), (hy, h))
    | inr later ↦ rw later (
      All-insert_with (λ z. z.created_at < y.created_at) (newest_first tie) x ys
          (behind x y later xy) hy,
      insert-IsNewestFirst x ys apart h,
    )
  ]

  pub sort-IsNewestFirst :
      (xs : List Incident) → AreApart xs → IsNewestFirst (sort_with (newest_first tie) xs)
  unfolding sort_with
  sort-IsNewestFirst [] h = tt
  sort-IsNewestFirst (x ∷ xs) (apart, h) =
      insert-IsNewestFirst x (sort_with (newest_first tie) xs)
        (All-sort_with (λ y. x.created_at ≢ y.created_at) (newest_first tie) xs apart)
        (sort-IsNewestFirst xs h)

-- The order of equal times makes no difference then.
module _ (tie other : Incident → Incident → Bool) where
  same_order :
      (i j : Incident) → i.created_at ≢ j.created_at → newest_first tie i j ≡ newest_first other i j
  same_order i j apart = ground (arith, apart)

  insert-same :
      (x : Incident) (xs : List Incident)
      → All (λ y. x.created_at ≢ y.created_at) xs
      → insert_with (newest_first tie) x xs ≡ insert_with (newest_first other) x xs
  unfolding insert_with
  insert-same x [] h = refl
  insert-same x (y ∷ ys) (apart, h) =
      ap (λ b. if b then x ∷ y ∷ ys else y ∷ insert_with (newest_first tie) x ys)
        (same_order x y apart)
      ∙ ap (λ zs. if newest_first other x y then x ∷ y ∷ ys else y ∷ zs) (insert-same x ys h)

  pub sort-same :
      (xs : List Incident)
      → AreApart xs
      → sort_with (newest_first tie) xs ≡ sort_with (newest_first other) xs
  unfolding sort_with
  sort-same [] h = refl
  sort-same (x ∷ xs) (apart, h) =
      insert-same x (sort_with (newest_first tie) xs)
        (All-sort_with (λ y. x.created_at ≢ y.created_at) (newest_first tie) xs apart)
      ∙ ap (insert_with (newest_first other) x) (sort-same xs h)
