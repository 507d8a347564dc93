-- ===== src/Roster/Pick/Laws.antt =====
-- What the picked primary and secondary are (pickPrimary and pickSecondary).
use nightowl.Base.{
  ℕ, ◌+◌, ◌≤◌, ◌<◌, ◌≡◌, ◌≢◌, refl, ◌⊎◌, inl, inr, true, false, List, [], ◌∷◌, Option, none, some,
  All, Any, arith, ◌==◌,
}
use nightowl.Schema.{Member}
use nightowl.Roster.Pick.{Counts, least, is_blocked, no_skip, relax, pick_primary, pick_secondary}
use nightowl.Roster.Pick.Least.{IsLeast, Finds, least-Finds}
use mathlib.Core.Option

module _ (members : List Member) (primary_count : Counts) (last : Option ℕ) (run limit : ℕ) where
  -- `user` has served least among the members that the limit allows, or among all of them if the
  -- limit allows nobody.
  abbrev pub IsFairPrimary : ℕ → Type 0
  IsFairPrimary user =
      IsLeast (is_blocked last run limit) primary_count members user
      ⊎ (All (λ m. is_blocked last run limit m.user_id ≡ true) members
          × IsLeast no_skip primary_count members user)

  abbrev Picks : Option ℕ → Type 0
  Picks none = All (λ m. no_skip m.user_id ≡ true) members
  Picks (some user) = IsFairPrimary user

  relaxed-Picks :
      (r : Option (ℕ × ℕ))
      → All (λ m. is_blocked last run limit m.user_id ≡ true) members
      → Finds no_skip primary_count members r
      → Picks (Option.map (λ b. b.0) r)
  relaxed-Picks none all h = h
  relaxed-Picks (some (user, count)) all h = inr (all, h)

  relax-Picks :
      (r : Option (ℕ × ℕ))
      → Finds (is_blocked last run limit) primary_count members r
      → Picks (Option.map (λ b. b.0) (relax primary_count members r))
  relax-Picks none h = relaxed-Picks _ h (least-Finds no_skip primary_count members)
  relax-Picks (some (user, count)) h = inl h

  pub pick_primary-Picks : Picks (pick_primary members primary_count last run limit)
  unfolding pick_primary
  pick_primary-Picks = relax-Picks _ (least-Finds (is_blocked last run limit) primary_count members)

-- `pickPrimary` on a roster with a member always picks somebody, and fairly: among the members that
-- the limit on consecutive weeks allows, or among all if it allows nobody, nobody has served less.
pub pick_primary_fair :
    (m : Member) (ms : List Member) (primary_count : Counts) (last : Option ℕ) (run limit : ℕ)
    → (user : ℕ) × (pick_primary (m ∷ ms) primary_count last run limit ≡ some user)
      × IsFairPrimary (m ∷ ms) primary_count last run limit user
pick_primary_fair m ms primary_count last run limit =
    known (pick_primary (m ∷ ms) primary_count last run limit) refl
      (pick_primary-Picks (m ∷ ms) primary_count last run limit)
  where
    known :
        (r : Option ℕ)
        → pick_primary (m ∷ ms) primary_count last run limit ≡ r
        → Picks (m ∷ ms) primary_count last run limit r
        → (user : ℕ) × (pick_primary (m ∷ ms) primary_count last run limit ≡ some user)
          × IsFairPrimary (m ∷ ms) primary_count last run limit user
    known none e (skipped, _) = cc
    known (some user) e fair = (user, e, fair)

not-All_blocked :
    (members : List Member) (last run limit : ℕ)
    → Any (λ m. m.user_id ≢ last) members
    → All (λ m. is_blocked (some last) run limit m.user_id ≡ true) members
    → ⊥
unfolding is_blocked
not-All_blocked [] last run limit h _ = elim h [ ]
not-All_blocked (m ∷ ms) last run limit (inl other) (blocked, _) = other (ground arith)
not-All_blocked (m ∷ ms) last run limit (inr rest) (_, blocked) =
    not-All_blocked ms last run limit rest blocked

fair-allowed :
    (members : List Member) (counts : Counts) (last run limit user : ℕ)
    → Any (λ m. m.user_id ≢ last) members
    → IsFairPrimary members counts (some last) run limit user
    → is_blocked (some last) run limit user ≡ false
fair-allowed members counts last run limit user other (inl h) = h.allowed
fair-allowed members counts last run limit user other (inr (all, h)) =
    absurd (not-All_blocked members last run limit other all)

-- Once the last primary has served `limit` weeks running and another member exists, `pickPrimary`
-- does not pick the last primary again.
pub pick_primary_limit :
    (members : List Member) (counts : Counts) (last run limit user : ℕ)
    → Any (λ m. m.user_id ≢ last) members
    → 0 < limit
    → limit ≤ run
    → pick_primary members counts (some last) run limit ≡ some user
    → user ≢ last
unfolding is_blocked
pick_primary_limit members counts last run limit user other pos full e same =
    let fair : IsFairPrimary members counts (some last) run limit user =
      rw e at (pick_primary-Picks members counts (some last) run limit) in
    ground (arith, fair-allowed members counts last run limit user other fair)

-- `pickSecondary` never picks the primary; it picks a member with the fewest weeks of both duties
-- among the others, and nobody only if there are no others.
pub pick_secondary_fair :
    (members : List Member) (primary_count secondary_count : Counts) (primary : ℕ)
    → ((pick_secondary members primary_count secondary_count primary ≡ none)
        × All (λ m. (m.user_id == primary) ≡ true) members)
      ⊎ ((user : ℕ) × (pick_secondary members primary_count secondary_count primary ≡ some user)
          × (user ≢ primary)
          × IsLeast (λ u. u == primary) (λ u. primary_count u + secondary_count u) members user)
unfolding pick_secondary
pick_secondary_fair members primary_count secondary_count primary =
    known _ refl (least-Finds _ _ members)
  where
    known :
        (r : Option (ℕ × ℕ))
        → least (λ u. u == primary) (λ u. primary_count u + secondary_count u) none members ≡ r
        → Finds (λ u. u == primary) (λ u. primary_count u + secondary_count u) members r
        → ((pick_secondary members primary_count secondary_count primary ≡ none)
            × All (λ m. (m.user_id == primary) ≡ true) members)
          ⊎ ((user : ℕ) × (pick_secondary members primary_count secondary_count primary ≡ some user)
              × (user ≢ primary)
              × IsLeast (λ u. u == primary) (λ u. primary_count u + secondary_count u) members user)
    known none e h = inl (rw e, h)
    known (some (user, count)) e h = inr (user, rw e, (λ same. ground (arith, h.allowed)), h)
