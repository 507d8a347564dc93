-- ===== src/Incident/Matches.antt =====
-- What the filters of a list of incidents let through (buildFilterClauses of pkg/incident/store.go).
use nightowl.Base.{
  ℕ, ◌≡◌, refl, ap, inl, inr, ◌⊎◌, String, str_eq, eq_iff, Bool, true, false, ◌&&◌, ◌||◌, List, [],
  ◌∷◌, Option, none, some, is_none, Any,
}
use nightowl.Schema.{Incident}
use nightowl.Incident.Store.{has_string}
use nightowl.Incident.Listing.{ListFilters, is_text, overlaps, has_none, passes}

-- The text is in the list.
abbrev pub Has : String → List String → Type 0
Has s xs = Any (λ x. s ≡ x) xs

-- The lists have an element in common.
abbrev pub Share : List String → List String → Type 0
Share xs ys = Any (λ x. Has x ys) xs

-- The incident is not merged, and has what each filter that is given asks for.
abbrev pub Matches : ListFilters → Incident → Type 0
Matches f i =
    (i.merged_into_id ≡ none)
    × ((f.severity ≡ "") ⊎ (i.severity ≡ f.severity))
    × ((f.category ≡ "") ⊎ (i.category ≡ some f.category))
    × ((f.service ≡ "") ⊎ Has f.service i.services)
    × ((f.tags ≡ []) ⊎ Share i.tags f.tags)

-- A test that decides a proposition.
abbrev pub Decides : Bool → Type 0 → Type 0
Decides b P = (b ≡ true → P) × (P → b ≡ true)

false-true : false ≡ true → ⊥
false-true e = cc

or_Decides : {P Q : Type 0} (a b : Bool) → Decides a P → Decides b Q → Decides (a || b) (P ⊎ Q)
or_Decides true b (p, p') q = ((λ h. inl (p refl)), λ h. refl)
or_Decides false b (p, p') (q, q') =
    ((λ h. inr (q h)), λ h. elim h [ inl k ↦ absurd (false-true (p' k)) | inr k ↦ q' k ])

and_Decides : {P Q : Type 0} (a b : Bool) → Decides a P → Decides b Q → Decides (a && b) (P × Q)
and_Decides true b (p, p') (q, q') = ((λ h. (p refl, q h)), λ h. q' h.1)
and_Decides false b (p, p') (q, q') = ((λ h. absurd (false-true h)), λ h. p' h.0)

same : (s t : String) → Decides (str_eq s t) (s ≡ t)
same s t = ((eq_iff s t).0, (eq_iff s t).1)

has : (s : String) (xs : List String) → Decides (has_string s xs) (Has s xs)
has s [] = ((λ h. cc), λ h. absurd h)
has s (x ∷ xs) = or_Decides (str_eq s x) (has_string s xs) (same s x) (has s xs)

shares : (xs ys : List String) → Decides (overlaps xs ys) (Share xs ys)
shares [] ys = ((λ h. cc), λ h. absurd h)
shares (x ∷ xs) ys = or_Decides (has_string x ys) (overlaps xs ys) (has x ys) (shares xs ys)

text : (o : Option String) (s : String) → Decides (is_text o s) (o ≡ some s)
text none s = ((λ h. cc), λ h. cc)
text (some t) s = ((λ h. ap (λ u. some u) ((eq_iff t s).0 h)), λ h. (eq_iff t s).1 (some-eq h))
  where
    some-eq : ◌≡◌ {A = Option String} (some t) (some s) → t ≡ s
    some-eq e = cc

nothing : (o : Option ℕ) → Decides (is_none o) (o ≡ none)
nothing none = ((λ h. refl), λ h. refl)
nothing (some n) = ((λ h. cc), λ h. cc)

empty : (xs : List String) → Decides (has_none xs) (xs ≡ [])
empty [] = ((λ h. refl), λ h. refl)
empty (x ∷ xs) = ((λ h. cc), λ h. cc)

module _ {A B C D E : Type 0} where
  regroup : (((A × B) × C) × D) × E → A × B × C × D × E
  regroup h = (h.0.0.0.0, h.0.0.0.1, h.0.0.1, h.0.1, h.1)

  ungroup : A × B × C × D × E → (((A × B) × C) × D) × E
  ungroup h = ((((h.0, h.1), h.2), h.3), h.4)

pub passes-Matches : (f : ListFilters) (i : Incident) → Decides (passes f i) (Matches f i)
unfolding passes
passes-Matches f i =
    let (to, from) =
      and_Decides _ _
        (and_Decides _ _
          (and_Decides _ _
            (and_Decides _ _ (nothing i.merged_into_id)
              (or_Decides _ _ (same f.severity "") (same i.severity f.severity)))
            (or_Decides _ _ (same f.category "") (text i.category f.category)))
          (or_Decides _ _ (same f.service "") (has f.service i.services)))
        (or_Decides _ _ (empty f.tags) (shares i.tags f.tags)) in
    ((λ h. regroup (to h)), λ h. from (ungroup h))
