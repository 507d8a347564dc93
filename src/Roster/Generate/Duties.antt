-- ===== src/Roster/Generate/Duties.antt =====
-- What each week of a generated schedule is, and where the window begins.
use nightowl.Base.{
  ℕ, zero, suc, ◌+◌, ◌%◌, ◌≤◌, ◌<◌, ◌≡◌, ◌≢◌, refl, ap, inl, inr, String, true, List, [], ◌∷◌, map,
  Option, none, some, ◌==◌, ==_iff, find, find-eq-some, arith, length, lt→ltb, Any, All,
  Option-cases,
}
use nightowl.Sql.Meets.{Meets, Meets-mono}
use nightowl.Schema.{Member}
use nightowl.Roster.Pick.{pick_secondary}
use nightowl.Roster.Pick.Laws.{IsFairPrimary, pick_primary_fair, pick_secondary_fair}
use nightowl.Roster.Store.{ScheduleEntry}
use nightowl.Roster.Generate.{
  Tracking, align_to_handoff_day, choose_secondary, locked_entry, keep_locked, generate_weeks,
}
use nightowl.Roster.Generate.Plan.{Assignment, assignment, plan_week, plan_weeks}
use nightowl.Roster.Generate.Refines.{generate_weeks_refines}

abbrev pub IsUser : List Member → ℕ → Type 0
IsUser members user = Any (λ m. m.user_id ≡ user) members

-- The secondary of a week: another member than the primary, or nobody if there is none.
abbrev pub IsSecondary : List Member → ℕ → Option ℕ → Type 0
IsSecondary members primary none = All (λ m. m.user_id ≡ primary) members
IsSecondary members primary (some user) = (user ≢ primary) × IsUser members user

-- A locked week is as it was; any other has a member as its primary.
abbrev pub IsDuty : List Member → Option ScheduleEntry → ℕ → Assignment → Type 0
IsDuty members (some e) week a = (a ≡ assignment e) × (a.week ≡ week)
IsDuty members none week a =
    (a.week ≡ week)
    × ((user : ℕ) × (a.primary ≡ some user)
        × IsUser members user
        × IsSecondary members user a.secondary)

-- Week after week from `week` on.
abbrev pub AreDuties : List Member → List ScheduleEntry → ℕ → List Assignment → Type 0
AreDuties members existing week [] = Unit
AreDuties members existing week (a ∷ rest) =
    IsDuty members (locked_entry existing week) week a × AreDuties members existing (week + 7) rest

fair-IsUser :
    (members : List Member) (counts : ℕ → ℕ) (last : Option ℕ) (run limit user : ℕ)
    → IsFairPrimary members counts last run limit user
    → IsUser members user
fair-IsUser members counts last run limit user (inl h) = h.chosen
fair-IsUser members counts last run limit user (inr (_, h)) = h.chosen

only_primary :
    (members : List Member) (primary : ℕ)
    → All (λ m. (m.user_id == primary) ≡ true) members
    → All (λ m. m.user_id ≡ primary) members
only_primary [] primary h = tt
only_primary (m ∷ ms) primary (e, rest) =
    ((==_iff m.user_id primary).0 e, only_primary ms primary rest)

picked-IsSecondary :
    (members : List Member) (t : Tracking) (primary : ℕ)
    → IsSecondary members primary (pick_secondary members t.primary_count t.secondary_count primary)
picked-IsSecondary members t primary =
    elim (pick_secondary_fair members t.primary_count t.secondary_count primary) [
      | inl (e, nobody) ↦ rw e (only_primary members primary nobody)
      | inr (user, e, ne, h) ↦ rw e (ne, h.chosen)
    ]

chosen-IsSecondary :
    (m : Member) (ms : List Member) (t : Tracking) (primary : ℕ)
    → IsUser (m ∷ ms) primary
    → IsSecondary (m ∷ ms) primary (choose_secondary (m ∷ ms) t (some primary))
chosen-IsSecondary m [] t primary (inl e) = (e, tt)
chosen-IsSecondary m [] t primary (inr h) = absurd h
chosen-IsSecondary m (x ∷ xs) t primary member =
    rw (lt→ltb 1 (length (m ∷ x ∷ xs)) (omega arith)) (picked-IsSecondary (m ∷ x ∷ xs) t primary)

locked_entry-week :
    (existing : List ScheduleEntry) (week : ℕ) (e : ScheduleEntry)
    → locked_entry existing week ≡ some e
    → e.week_start ≡ week
unfolding locked_entry
locked_entry-week existing week e h =
    elim (Option-cases (find (λ x. x.week_start == week) existing)) [
      | inl absent ↦ cc (h, ap keep_locked absent)
      | inr (x, found) ↦
          ground (
            arith,
            h,
            ap keep_locked found,
            find-eq-some (λ x. x.week_start == week) existing found,
          )
    ]

module _ (m : Member) (ms : List Member) (limit : ℕ) where
  plan_week-IsDuty :
      (locked : Option ScheduleEntry) (week : ℕ) (t : Tracking)
      → ((e : ScheduleEntry) → locked ≡ some e → e.week_start ≡ week)
      → IsDuty (m ∷ ms) locked week (plan_week (m ∷ ms) limit locked week t).0
  plan_week-IsDuty (some e) week t at = (refl, at e refl)
  plan_week-IsDuty none week t at =
      let (user, e, fair) =
        pick_primary_fair m ms t.primary_count t.last_primary t.consecutive_count limit in
      let member = fair-IsUser (m ∷ ms) t.primary_count _ _ limit user fair in
      (refl, (user, e, member, rw e (chosen-IsSecondary m ms t user member)))

  plan-AreDuties :
      (existing : List ScheduleEntry) (weeks week : ℕ) (t : Tracking)
      → AreDuties (m ∷ ms) existing week (plan_weeks (m ∷ ms) limit existing weeks week t)
  unfolding plan_weeks
  plan-AreDuties existing zero week t = tt
  plan-AreDuties existing (suc weeks) week t = (
    plan_week-IsDuty (locked_entry existing week) week t (locked_entry-week existing week),
    plan-AreDuties existing weeks (week + 7) _,
  )

  length-plan :
      (existing : List ScheduleEntry) (weeks week : ℕ) (t : Tracking)
      → length (plan_weeks (m ∷ ms) limit existing weeks week t) ≡ weeks
  unfolding plan_weeks
  length-plan existing zero week t = refl
  length-plan existing (suc weeks) week t = ap suc (length-plan existing weeks (week + 7) _)

  -- A generated schedule has one entry for each week of the window, in order: a locked week is as
  -- it was, and any other has a member as its primary, with another member as its secondary
  -- wherever the roster has one. Where no statement fails, the schedule is generated.
  pub generate_weeks_duties :
      (uuid_text : ℕ → String) (roster_id : ℕ) (existing : List ScheduleEntry) (weeks week : ℕ)
      (t : Tracking)
      → Meets
          (λ entries.
            (length (map assignment entries) ≡ weeks)
            × AreDuties (m ∷ ms) existing week (map assignment entries))
          (generate_weeks uuid_text roster_id (m ∷ ms) limit existing weeks week t)
  generate_weeks_duties uuid_text roster_id existing weeks week t =
      Meets-mono _ (generate_weeks_refines uuid_text roster_id m ms limit existing weeks week t)
        λ entries planned.
          rw planned (length-plan existing weeks week t, plan-AreDuties existing weeks week t)

-- From day 7 on, the window begins on the handoff day, at most six days before the date that was
-- asked for.
align_to_handoff_day_lem :
    (date day : ℕ)
    → day < 7
    → 7 ≤ date
    → (align_to_handoff_day date day % 7 ≡ day)
      × (align_to_handoff_day date day ≤ date)
      × (date < align_to_handoff_day date day + 7)
unfolding align_to_handoff_day
align_to_handoff_day_lem date day h k = ground arith
