-- ===== src/Roster/Generate/Refines.antt =====
-- A run of the generator that succeeds assigns what the plan says, and a run in which nothing fails
-- succeeds.
use nightowl.Base.{
  ℕ, zero, suc, ◌+◌, ◌≡◌, refl, inl, inr, String, true, List, [], ◌∷◌, map, Option, none, some,
  arith,
}
use nightowl.Sql.Meets.{Meets, pure-Meets, bind-Meets, wrap-Meets}
use nightowl.Schema.{Member}
use nightowl.Roster.Pick.Laws.{pick_primary_fair, pick_secondary_fair}
use nightowl.Roster.Store.{ScheduleEntry, is_distinct}
use nightowl.Roster.Generate.{
  Tracking, choose_primary, choose_secondary, locked_entry, generate_week, generate_weeks,
}
use nightowl.Roster.Generate.Plan.{assignment, plan_week, plan_weeks, upsert-Meets}

-- The chosen users satisfy the CHECK on the table.
choose-distinct :
    (m : Member) (ms : List Member) (limit : ℕ) (t : Tracking)
    → let primary = choose_primary (m ∷ ms) limit t in
      is_distinct primary (choose_secondary (m ∷ ms) t primary) ≡ true
choose-distinct m ms limit t =
    let (user, e, fair) =
      pick_primary_fair m ms t.primary_count t.last_primary t.consecutive_count limit in
    rw e (distinct_from user)
  where
    distinct_from :
        (user : ℕ) → is_distinct (some user) (choose_secondary (m ∷ ms) t (some user)) ≡ true
    distinct_from user =
        elim (pick_secondary_fair (m ∷ ms) t.primary_count t.secondary_count user) [
          | inl (e, _) ↦ ground (arith, e)
          | inr (other, e, ne, _) ↦ ground (arith, e, ne)
        ]

module _ (uuid_text : ℕ → String) (roster_id : ℕ) (m : Member) (ms : List Member) (limit : ℕ) where
  generate_week-Meets :
      (locked : Option ScheduleEntry) (week : ℕ) (t : Tracking)
      → Meets
          (λ r.
            (assignment r.0 ≡ (plan_week (m ∷ ms) limit locked week t).0)
            × (r.1 ≡ (plan_week (m ∷ ms) limit locked week t).1))
          (generate_week uuid_text roster_id (m ∷ ms) limit locked week t)
  unfolding generate_week
  generate_week-Meets (some e) week t = pure-Meets _ (refl, refl)
  generate_week-Meets none week t =
      bind-Meets _ _
        (wrap-Meets _ _
          (upsert-Meets roster_id _ uuid_text (choose-distinct m ms limit t) (omega arith)))
        λ entry same. pure-Meets _ (same, refl)

  -- On a roster with a member, the loop over the weeks succeeds where no statement fails; and
  -- whenever it succeeds, it assigns what the plan says.
  pub generate_weeks_refines :
      (existing : List ScheduleEntry) (weeks week : ℕ) (t : Tracking)
      → Meets
          (λ entries. map assignment entries ≡ plan_weeks (m ∷ ms) limit existing weeks week t)
          (generate_weeks uuid_text roster_id (m ∷ ms) limit existing weeks week t)
  unfolding generate_weeks plan_weeks
  generate_weeks_refines existing zero week t = pure-Meets [] refl
  generate_weeks_refines existing (suc weeks) week t =
      bind-Meets _ _ (generate_week-Meets (locked_entry existing week) week t) λ made same.
        bind-Meets _ _ (generate_weeks_refines existing weeks (week + 7) made.1)
          λ rest planned. pure-Meets _ (rw (← same.1) (cc (same.0, planned)))
