-- ===== src/Roster/Generate/Plan.antt =====
-- The decisions of the generator without the database, and that a run that succeeds takes them.
use nightowl.Base.{
  ℕ, zero, suc, ◌+◌, ◌<◌, ◌≡◌, refl, String, true, List, [], ◌∷◌, Option, none, some, find,
  find-eq-some, arith,
}
use nightowl.Sql.{ok}
use nightowl.Sql.Meets.{
  Meets, pure-Meets, statement-Meets, bind-Meets, attempt-Meets, query-healthy,
}
use nightowl.Schema.{Database, Member, ScheduleRow}
use nightowl.Roster.Store.{
  ScheduleEntry, WeekPlan, is_week, is_distinct, store_week, upsert_week_row, get_user_display_name,
}
use nightowl.Roster.Weeks.{upsert_schedule_week, display_name_of}
use nightowl.Roster.Generate.{
  Tracking, track_primary, track_week, choose_primary, choose_secondary, locked_entry,
}

-- Who serves in a week.
pub record Assignment : Type 0 where
  pub week : ℕ
  pub primary : Option ℕ
  pub secondary : Option ℕ

abbrev pub assignment : ScheduleEntry → Assignment
assignment e = record {
  week = e.week_start;
  primary = e.primary_user_id;
  secondary = e.secondary_user_id;
}

module _ (members : List Member) (limit : ℕ) where
  abbrev pub plan_week : Option ScheduleEntry → ℕ → Tracking → Assignment × Tracking
  plan_week (some e) week t = (assignment e, track_primary e.primary_user_id t)
  plan_week none week t =
      let primary = choose_primary members limit t in
      let secondary = choose_secondary members t primary in
      (
        record { week = week; primary = primary; secondary = secondary },
        track_week primary secondary t,
      )

  -- The assignments of the window, by recursion on its weeks.
  unfoldable pub plan_weeks : List ScheduleEntry → ℕ → ℕ → Tracking → List Assignment
  plan_weeks existing zero week t = []
  plan_weeks existing (suc weeks) week t =
      let planned = plan_week (locked_entry existing week) week t in
      planned.0 ∷ plan_weeks existing weeks (week + 7) planned.1

-- What an upsert has stored.
abbrev Holds : WeekPlan → ScheduleRow → Type 0
Holds plan row =
    (row.week_start ≡ plan.week_start)
    × (row.primary_user_id ≡ plan.primary_uid)
    × (row.secondary_user_id ≡ plan.secondary_uid)

store_week-Holds :
    (roster_id : ℕ) (plan : WeekPlan) (db : Database) (old : Option ScheduleRow)
    → find (is_week roster_id plan.week_start) db.roster_schedule ≡ old
    → (row : ScheduleRow) × ((store_week roster_id plan db old).0 ≡ ok row) × Holds plan row
store_week-Holds roster_id plan db none e = (_, refl, (refl, refl, refl))
store_week-Holds roster_id plan db (some old) e = (
  _,
  refl,
  (
    ground (arith, find-eq-some (is_week roster_id plan.week_start) db.roster_schedule e),
    refl,
    refl,
  ),
)

display_name_of-Meets :
    (uuid_text : ℕ → String) (id : Option ℕ) → Meets (λ _. Unit {0}) (display_name_of uuid_text id)
unfolding display_name_of get_user_display_name
display_name_of-Meets uuid_text none = pure-Meets "" tt
display_name_of-Meets uuid_text (some id) =
    bind-Meets _ _ (attempt-Meets (get_user_display_name id) (query-healthy _))
      λ r _. pure-Meets _ tt

module _ (roster_id : ℕ) (plan : WeekPlan) where
  upsert_week_row-Holds :
      (db : Database) (row : ScheduleRow)
      → (upsert_week_row roster_id plan db).0 ≡ ok row
      → Holds plan row
  unfolding upsert_week_row
  upsert_week_row-Holds db row h =
      let (row', e, holds) = store_week-Holds roster_id plan db _ refl in ground (arith, e, holds)

  upsert_week_row-ok :
      is_distinct plan.primary_uid plan.secondary_uid ≡ true
      → plan.week_start < plan.week_end
      → (db : Database) → (row : ScheduleRow) × ((upsert_week_row roster_id plan db).0 ≡ ok row)
  unfolding upsert_week_row
  upsert_week_row-ok distinct after db =
      let (row, e, holds) = store_week-Holds roster_id plan db _ refl in (row, ground arith)

  -- An upsert that the constraints allow goes through, and returns what it was given.
  pub upsert-Meets :
      (uuid_text : ℕ → String)
      → is_distinct plan.primary_uid plan.secondary_uid ≡ true
      → plan.week_start < plan.week_end
      → Meets
          (λ e. assignment e ≡ record {
            week = plan.week_start;
            primary = plan.primary_uid;
            secondary = plan.secondary_uid;
          })
          (upsert_schedule_week uuid_text roster_id plan)
  unfolding upsert_schedule_week
  upsert-Meets uuid_text distinct after =
      bind-Meets _ _
        (statement-Meets (upsert_week_row roster_id plan) upsert_week_row-Holds
          (upsert_week_row-ok distinct after))
        λ row holds. bind-Meets _ _ (display_name_of-Meets uuid_text plan.primary_uid) λ p _.
          bind-Meets _ _ (display_name_of-Meets uuid_text plan.secondary_uid)
            λ s _. pure-Meets _ (ground arith)
