-- ===== src/Roster/Pick/Least.antt =====
-- A picking loop finds the least count among the members that it does not skip.
use nightowl.Base.{
  ℕ, ◌≤◌, ◌≡◌, refl, sym, ◌⊎◌, inl, inr, Bool, true, false, List, [], ◌∷◌, Option, none, some, All,
  Any, arith, Bool-cases,
}
use nightowl.Schema.{Member}
use nightowl.Roster.Pick.{consider, least}

-- `user` is a member that the loop does not skip, and none of those has a lower count.
pub record IsLeast (skip : ℕ → Bool) (score : ℕ → ℕ) (members : List Member) (user : ℕ)
    : Type 0 where
  pub chosen : Any (λ m. m.user_id ≡ user) members
  pub allowed : skip user ≡ false
  pub minimal : All (λ m. skip m.user_id ≡ false → score user ≤ score m.user_id) members

module _ (skip : ℕ → Bool) (score : ℕ → ℕ) where
  -- The candidate after the loop is the one before it or a member, and has no higher count.
  abbrev Improves : ℕ → ℕ → List Member → Option (ℕ × ℕ) → Type 0
  Improves best best_count members none = ⊥
  Improves best best_count members (some (user, count)) =
      ((user ≡ best) ⊎ (Any (λ m. m.user_id ≡ user) members × (skip user ≡ false)))
      × (count ≡ score user)
      × (count ≤ best_count)
      × All (λ m. skip m.user_id ≡ false → count ≤ score m.user_id) members

  -- A round keeps the candidate, or takes the member it looks at.
  consider-cases :
      (best best_count user : ℕ)
      → ((consider skip score (some (best, best_count)) user ≡ some (best, best_count))
          × (skip user ≡ false → best_count ≤ score user))
        ⊎ ((consider skip score (some (best, best_count)) user ≡ some (user, score user))
            × (skip user ≡ false)
            × (score user ≤ best_count))
  unfolding consider
  consider-cases best best_count user = elim (Bool-cases (skip user)) [
    | inl skipped ↦ inl (rw skipped refl, λ h. cc)
    | inr taken ↦ ground arith
  ]

  kept-Improves :
      (best best_count : ℕ) (m : Member) (ms : List Member) (r : Option (ℕ × ℕ))
      → (skip m.user_id ≡ false → best_count ≤ score m.user_id)
      → Improves best best_count ms r
      → Improves best best_count (m ∷ ms) r
  kept-Improves best best_count m ms none low h = h
  kept-Improves best best_count m ms (some (user, count)) low (source, exact, le, all) =
      (later source, exact, le, ((λ a. omega (arith, low a)), all))
    where
      later :
          (user ≡ best) ⊎ (Any (λ m. m.user_id ≡ user) ms × (skip user ≡ false))
          → (user ≡ best) ⊎ (Any (λ m. m.user_id ≡ user) (m ∷ ms) × (skip user ≡ false))
      later (inl e) = inl e
      later (inr (mem, ok)) = inr (inr mem, ok)

  taken-Improves :
      (best best_count : ℕ) (m : Member) (ms : List Member) (r : Option (ℕ × ℕ))
      → skip m.user_id ≡ false
      → score m.user_id ≤ best_count
      → Improves m.user_id (score m.user_id) ms r
      → Improves best best_count (m ∷ ms) r
  taken-Improves best best_count m ms none free low h = h
  taken-Improves best best_count m ms (some (user, count)) free low (source, exact, le, all) =
      (inr (here source), exact, omega arith, ((λ _. le), all))
    where
      here :
          (user ≡ m.user_id) ⊎ (Any (λ m. m.user_id ≡ user) ms × (skip user ≡ false))
          → Any (λ m. m.user_id ≡ user) (m ∷ ms) × (skip user ≡ false)
      here (inl e) = (inl (sym e), rw e free)
      here (inr (mem, ok)) = (inr mem, ok)

  least-Improves :
      (best best_count : ℕ) (members : List Member)
      → best_count ≡ score best
      → Improves best best_count members (least skip score (some (best, best_count)) members)
  unfolding least
  least-Improves best best_count [] h = (inl refl, h, omega arith, tt)
  least-Improves best best_count (m ∷ ms) h = elim (consider-cases best best_count m.user_id) [
    | inl (e, low) ↦
        rw e (kept-Improves best best_count m ms _ low (least-Improves best best_count ms h))
    | inr (e, free, low) ↦ rw e (
        taken-Improves best best_count m ms _ free low
          (least-Improves m.user_id (score m.user_id) ms refl))
  ]

  -- From no candidate: nobody is found only if everybody is skipped.
  abbrev pub Finds : List Member → Option (ℕ × ℕ) → Type 0
  Finds members none = All (λ m. skip m.user_id ≡ true) members
  Finds members (some (user, count)) = IsLeast skip score members user

  first-Finds :
      (m : Member) (ms : List Member) (r : Option (ℕ × ℕ))
      → skip m.user_id ≡ false
      → Improves m.user_id (score m.user_id) ms r
      → Finds (m ∷ ms) r
  first-Finds m ms none free h = absurd h
  first-Finds m ms (some (user, count)) free (inl e, exact, le, all) = record {
    chosen = inl (sym e);
    allowed = rw e free;
    minimal = ((λ _. omega arith), rw exact at all);
  }
  first-Finds m ms (some (user, count)) free (inr (mem, ok), exact, le, all) = record {
    chosen = inr mem;
    allowed = ok;
    minimal = ((λ _. omega arith), rw exact at all);
  }

  skipped-Finds :
      (m : Member) (ms : List Member) (r : Option (ℕ × ℕ))
      → skip m.user_id ≡ true
      → Finds ms r
      → Finds (m ∷ ms) r
  skipped-Finds m ms none skipped h = (skipped, h)
  skipped-Finds m ms (some (user, count)) skipped h = record {
    chosen = inr h.chosen;
    allowed = h.allowed;
    minimal = ((λ free. cc), h.minimal);
  }

  pub least-Finds : (members : List Member) → Finds members (least skip score none members)
  unfolding least consider
  least-Finds [] = tt
  least-Finds (m ∷ ms) = elim (Bool-cases (skip m.user_id)) [
    | inl skipped ↦ rw skipped (skipped-Finds m ms _ skipped (least-Finds ms))
    | inr free ↦
        rw free (first-Finds m ms _ free (least-Improves m.user_id (score m.user_id) ms refl))
  ]
