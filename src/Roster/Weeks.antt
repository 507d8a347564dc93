-- ===== src/Roster/Weeks.antt =====
-- Writing single weeks and overrides of a roster (pkg/roster/store.go and service.go).
use nightowl.Base.{
  ℕ, suc, ◌+◌, String, true, false, not, [], ◌∷◌, ◌++◌, Option, none, some, ltb, ◌==◌,
  if◌then◌else◌, find, select, update,
}
use nightowl.Sql.{
  Sql, SqlError, no_rows, Result, ok, err, pure, raise, statement, exec, ◌>>=◌, attempt, wrap,
}
use nightowl.Schema.{Database, Override}
use nightowl.Roster.Store.{
  ScheduleEntry, OverrideResponse, WeekPlan, is_week, upsert_week_row, get_user_display_name,
}

abbrev pub name_of_result : (ℕ → String) → ℕ → Result SqlError String → String
name_of_result uuid_text id (ok name) = name
name_of_result uuid_text id (err e) = uuid_text id

-- `if uid != nil { name, _ = s.GetUserDisplayName(ctx, *uid) }`
unfoldable pub display_name_of : (ℕ → String) → Option ℕ → Sql Database SqlError String
display_name_of uuid_text none = pure ""
display_name_of uuid_text (some id) = do
  r ← attempt (get_user_display_name id)
  pure (name_of_result uuid_text id r)

-- UpsertScheduleWeek. The entry it returns has the week's end that was asked for, while a row that
-- was there keeps its own.
unfoldable pub upsert_schedule_week :
    (ℕ → String) → ℕ → WeekPlan → Sql Database SqlError ScheduleEntry
upsert_schedule_week uuid_text roster_id plan = do
  row ← statement (upsert_week_row roster_id plan)
  primary_name ← display_name_of uuid_text plan.primary_uid
  secondary_name ← display_name_of uuid_text plan.secondary_uid
  pure (record {
    row = record row { week_end = plan.week_end };
    primary_display_name = primary_name;
    secondary_display_name = secondary_name;
  })

-- Service.UpdateScheduleWeek: a manual assignment locks the week.
unfoldable pub update_schedule_week :
    (ℕ → String) → ℕ → ℕ → Option ℕ → Option ℕ → Option String → Sql Database SqlError ScheduleEntry
update_schedule_week uuid_text roster_id week_start primary secondary notes =
    upsert_schedule_week uuid_text roster_id (record {
      week_start = week_start;
      week_end = week_start + 7;
      primary_uid = primary;
      secondary_uid = secondary;
      is_locked = true;
      generated = false;
      notes = notes;
    })

unfoldable pub unlock_week_row : ℕ → ℕ → Database → Result SqlError (Unit {0}) × Database
unlock_week_row roster_id week_start db =
    elim (find (is_week roster_id week_start) db.roster_schedule) [
      | none ↦ (err no_rows, db)
      | some _ ↦ (
        ok tt,
        record db {
          roster_schedule =
              update (is_week roster_id week_start)
                (λ row. record row { is_locked = false; updated_at = db.now }) db.roster_schedule;
        },
      )
    ]

unfoldable pub unlock_schedule_week : ℕ → ℕ → Sql Database SqlError (Unit {0})
unlock_schedule_week roster_id week_start = statement (unlock_week_row roster_id week_start)

-- Errors of Service.CreateOverride: a time that does not parse, the wrong order, or the store's.
pub data OverrideError : Type 0 where
  invalid_start_at invalid_end_at end_not_after_start : OverrideError
  storing_override : SqlError → OverrideError

abbrev pub new_override : ℕ → ℕ → ℕ → ℕ → ℕ → ℕ → Option String → Option ℕ → Override
new_override id now roster_id user_id start_at end_at reason created_by = record {
  id = id;
  roster_id = roster_id;
  user_id = user_id;
  start_at = start_at;
  end_at = end_at;
  reason = reason;
  created_by = created_by;
  created_at = now;
}

unfoldable pub insert_override :
    ℕ → ℕ → ℕ → ℕ → Option String → Option ℕ → Sql Database SqlError Override
insert_override roster_id user_id start_at end_at reason created_by = statement λ db.
    let o = new_override db.next_id db.now roster_id user_id start_at end_at reason created_by in
    (ok o, record db { next_id = suc db.next_id; roster_overrides = db.roster_overrides ++ o ∷ [] })

-- CreateOverride of the service, with that of the store: the times come as `time.Parse` leaves
-- them.
unfoldable pub create_override :
    (ℕ → String)
    → ℕ
    → ℕ
    → Option ℕ
    → Option ℕ
    → Option String
    → Option ℕ
    → Sql Database OverrideError OverrideResponse
create_override uuid_text roster_id user_id none end_at reason caller = raise invalid_start_at
create_override uuid_text roster_id user_id (some start_at) none reason caller =
    raise invalid_end_at
create_override uuid_text roster_id user_id (some start_at) (some end_at) reason caller =
    if not (ltb start_at end_at)
    then raise end_not_after_start
    else wrap storing_override (do
      o ← insert_override roster_id user_id start_at end_at reason caller
      name ← display_name_of uuid_text (some user_id)
      pure (record { override = o; display_name = name }))

unfoldable pub delete_override : ℕ → Sql Database SqlError (Unit {0})
delete_override id =
    exec λ db. record db { roster_overrides = select (λ o. not (o.id == id)) db.roster_overrides }
