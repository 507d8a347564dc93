-- ===== src/Incident/Union.antt =====
-- The union of two string slices (unionSlice of pkg/incident/service.go).
use nightowl.Base.{
  String, str_eq, eq_iff, Bool, true, false, ◌||◌, List, [], ◌∷◌, ◌++◌, ◌≡◌, ◌≢◌, refl, sym, ap,
  ◌∙◌, inl, inr, Bool-cases,
}
use nightowl.Incident.Fields.{Seen, mark, collect, collected, union_slice}
use nightowl.Incident.Store.{has_string}

or_assoc : (a b c : Bool) → ((a || b) || c) ≡ (a || (b || c))
or_assoc true b c = refl
or_assoc false b c = refl

or_false : (b : Bool) → b ≡ (b || false)
or_false true = refl
or_false false = refl

or_true : (b : Bool) → (b || true) ≡ true
or_true true = refl
or_true false = refl

true≢false : ◌≢◌ {A = Bool} true false
true≢false h = cc

str_eq_refl : (s : String) → str_eq s s ≡ true
str_eq_refl s = (eq_iff s s).1 refl

has_string-append :
    (s : String) (xs ys : List String)
    → has_string s (xs ++ ys) ≡ (has_string s xs || has_string s ys)
has_string-append s [] ys = refl
has_string-append s (x ∷ xs) ys =
    ap (λ b. str_eq s x || b) (has_string-append s xs ys)
    ∙ sym (or_assoc (str_eq s x) (has_string s xs) (has_string s ys))

seen-same : (seen : Seen) (s x : String) → str_eq s x ≡ true → seen x ≡ true → seen s ≡ true
seen-same seen s x same h = ap seen ((eq_iff s x).0 same) ∙ h

seen-new : (seen : Seen) (s x : String) → str_eq s x ≡ true → seen s ≡ true → seen x ≡ true
seen-new seen s x same h = ap seen (sym ((eq_iff s x).0 same)) ∙ h

-- The loop appends what it has not seen.
collect-has_string :
    (seen : Seen) (s : String) (xs : List String)
    → (seen s || has_string s (collect seen xs)) ≡ (seen s || has_string s xs)
unfolding collect
collect-has_string seen s [] = refl
collect-has_string seen s (x ∷ xs) = elim (Bool-cases (seen x)) [
  | inl old ↦ elim (Bool-cases (str_eq s x)) [
    | inl same ↦ rw (seen-same seen s x same old) refl
    | inr other ↦ rw (old, other) (collect-has_string seen s xs)
  ]
  | inr new ↦
      let ih = collect-has_string (mark x seen) s xs in
      elim (Bool-cases (str_eq s x)) [
        | inl same ↦ rw (new, same) refl
        | inr other ↦ rw (new, other) (rw other at ih)
      ]
]

-- Afterwards the loop has seen what the list has.
collected-has_string :
    (seen : Seen) (s : String) (xs : List String)
    → collected seen xs s ≡ (seen s || has_string s xs)
unfolding collected
collected-has_string seen s [] = or_false (seen s)
collected-has_string seen s (x ∷ xs) = elim (Bool-cases (seen x)) [
  | inl old ↦ elim (Bool-cases (str_eq s x)) [
    | inl same ↦ rw (old) (collected-has_string seen s xs ∙ rw (seen-same seen s x same old) refl)
    | inr other ↦ rw (old, other) (collected-has_string seen s xs)
  ]
  | inr new ↦
      let ih = collected-has_string (mark x seen) s xs in
      elim (Bool-cases (str_eq s x)) [
        | inl same ↦ rw (new, same) (ih ∙ rw same (sym (or_true (seen s))))
        | inr other ↦ rw (new, other) (ih ∙ rw other refl)
      ]
]

-- A text is in the union exactly if it is in one of the slices.
pub union_slice-has_string :
    (s : String) (a b : List String)
    → has_string s (union_slice a b) ≡ (has_string s a || has_string s b)
unfolding union_slice
union_slice-has_string s a b =
    let none_seen : Seen = λ _. false in
    has_string-append s (collect none_seen a) (collect (collected none_seen a) b)
    ∙ ap (λ x. x || has_string s (collect (collected none_seen a) b))
        (collect-has_string none_seen s a)
    ∙ ap (λ x. x || has_string s (collect (collected none_seen a) b))
        (sym (collected-has_string none_seen s a))
    ∙ collect-has_string (collected none_seen a) s b
    ∙ ap (λ x. x || has_string s b) (collected-has_string none_seen s a)

-- No text is in the list twice.
abbrev pub IsDistinct : List String → Type 0
IsDistinct [] = Unit
IsDistinct (x ∷ xs) = (has_string x xs ≡ false) × IsDistinct xs

-- None of the texts has been seen.
abbrev IsNew : Seen → List String → Type 0
IsNew seen xs = (s : String) → seen s ≡ true → has_string s xs ≡ false

collect-IsNew : (seen : Seen) (xs : List String) → IsNew seen (collect seen xs)
unfolding collect
collect-IsNew seen [] s h = refl
collect-IsNew seen (x ∷ xs) s h = elim (Bool-cases (seen x)) [
  | inl old ↦ rw old (collect-IsNew seen xs s h)
  | inr new ↦ elim (Bool-cases (str_eq s x)) [
    | inl same ↦ absurd (true≢false (sym (seen-new seen s x same h) ∙ new))
    | inr other ↦ rw (new, other) (collect-IsNew (mark x seen) xs s (rw h (or_true _)))
  ]
]

collect-IsDistinct : (seen : Seen) (xs : List String) → IsDistinct (collect seen xs)
unfolding collect
collect-IsDistinct seen [] = tt
collect-IsDistinct seen (x ∷ xs) = elim (Bool-cases (seen x)) [
  | inl old ↦ rw old (collect-IsDistinct seen xs)
  | inr new ↦ rw new (
    collect-IsNew (mark x seen) xs x (rw (str_eq_refl x) refl),
    collect-IsDistinct (mark x seen) xs,
  )
]

append-IsDistinct :
    (xs ys : List String)
    → IsDistinct xs
    → IsDistinct ys
    → ((s : String) → has_string s xs ≡ true → has_string s ys ≡ false)
    → IsDistinct (xs ++ ys)
append-IsDistinct [] ys hx hy apart = hy
append-IsDistinct (x ∷ xs) ys (new, hx) hy apart = (
  has_string-append x xs ys ∙ rw (new) (apart x (rw (str_eq_refl x) refl)),
  append-IsDistinct xs ys hx hy (λ s h. apart s (rw h (or_true (str_eq s x)))),
)

-- The union has no text twice, whatever the slices have.
pub union_slice-IsDistinct : (a b : List String) → IsDistinct (union_slice a b)
unfolding union_slice
union_slice-IsDistinct a b =
    let none_seen : Seen = λ _. false in
    append-IsDistinct (collect none_seen a) (collect (collected none_seen a) b)
      (collect-IsDistinct none_seen a) (collect-IsDistinct (collected none_seen a) b)
      (λ s h.
        collect-IsNew (collected none_seen a) b s
          (collected-has_string none_seen s a ∙ sym (collect-has_string none_seen s a) ∙ h))
