-- ===== src/Base/Windows.antt =====
-- Windows of a list, `LIMIT n OFFSET m`, and the lengths of what is sorted or selected.
use nightowl.Base.{
  ℕ, zero, suc, ◌+◌, ◌*◌, ◌≤◌, List, [], ◌∷◌, ◌++◌, ◌≡◌, refl, ap, sym, ◌∙◌, length, take, arith,
  Bool,
}
use nightowl.Base.Lists.{insert_with, sort_with, select, count}

suc_add : (m n : ℕ) → ◌≡◌ {A = ℕ} (suc m + n) (suc (m + n))
suc_add m n = omega arith

zero_mul : (size : ℕ) → ◌≡◌ {A = ℕ} 0 (0 * size)
zero_mul size = omega arith

suc_mul : (size n : ℕ) → ◌≡◌ {A = ℕ} (size + n * size) (suc n * size)
suc_mul size n = omega arith

module _ {ℓ} {A : Type ℓ} where
  abbrev pub drop : ℕ → List A → List A
  drop zero xs = xs
  drop (suc n) [] = []
  drop (suc n) (x ∷ xs) = drop n xs

  drop-empty : (n : ℕ) → drop n [] ≡ []
  drop-empty zero = refl
  drop-empty (suc n) = refl

  take-empty : (n : ℕ) → take {A = A} n [] ≡ []
  take-empty zero = refl
  take-empty (suc n) = refl

  take-add : (m n : ℕ) (xs : List A) → take (m + n) xs ≡ take m xs ++ take n (drop m xs)
  take-add zero n xs = ap (λ k. take k xs) (omega arith)
  take-add (suc m) n [] = take-empty (suc m + n) ∙ sym (take-empty n)
  take-add (suc m) n (x ∷ xs) =
      ap (λ k. take k (x ∷ xs)) (suc_add m n) ∙ ap (λ ys. x ∷ ys) (take-add m n xs)

  drop-add : (m n : ℕ) (xs : List A) → drop (m + n) xs ≡ drop n (drop m xs)
  drop-add zero n xs = ap (λ k. drop k xs) (omega arith)
  drop-add (suc m) n [] = drop-empty (suc m + n) ∙ sym (drop-empty n)
  drop-add (suc m) n (x ∷ xs) = ap (λ k. drop k (x ∷ xs)) (suc_add m n) ∙ drop-add m n xs

  pub take-all : (n : ℕ) (xs : List A) → length xs ≤ n → take n xs ≡ xs
  take-all zero [] h = refl
  take-all zero (x ∷ xs) h = absurd (omega (arith, h))
  take-all (suc n) [] h = refl
  take-all (suc n) (x ∷ xs) h = ap (λ ys. x ∷ ys) (take-all n xs (omega (arith, h)))

  -- The windows of a size, one after the other, from an offset on.
  abbrev pub windows : ℕ → ℕ → ℕ → List A → List A
  windows size offset zero xs = []
  windows size offset (suc n) xs = take size (drop offset xs) ++ windows size (offset + size) n xs

  -- They cover the list from the offset on, without a gap or an overlap.
  pub windows-take :
      (size offset n : ℕ) (xs : List A)
      → windows size offset n xs ≡ take (n * size) (drop offset xs)
  windows-take size offset zero xs = ap (λ k. take k (drop offset xs)) (zero_mul size)
  windows-take size offset (suc n) xs =
      ap (λ ys. take size (drop offset xs) ++ ys)
        (windows-take size (offset + size) n xs
          ∙ ap (λ ys. take (n * size) ys) (drop-add offset size xs))
      ∙ sym (take-add size (n * size) (drop offset xs))
      ∙ ap (λ k. take k (drop offset xs)) (suc_mul size n)

length-insert_with :
    {A : Type 0} (le : A → A → Bool) (x : A) (xs : List A)
    → length (insert_with le x xs) ≡ suc (length xs)
unfolding insert_with
length-insert_with le x [] = refl
length-insert_with le x (y ∷ ys) = ground (arith, length-insert_with le x ys)

pub length-sort_with :
    {A : Type 0} (le : A → A → Bool) (xs : List A) → length (sort_with le xs) ≡ length xs
unfolding sort_with
length-sort_with le [] = refl
length-sort_with le (x ∷ xs) =
    length-insert_with le x (sort_with le xs) ∙ ap suc (length-sort_with le xs)

pub length-select : {A : Type 0} (p : A → Bool) (xs : List A) → length (select p xs) ≡ count p xs
length-select p [] = refl
length-select p (x ∷ xs) = ground (arith, length-select p xs)
