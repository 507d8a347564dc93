-- ===== src/Roster/Store.antt =====
-- The statements of pkg/roster/store.go. Foreign keys are not modelled: a statement that violates
-- one fails, which the faults of the connection cover. The text of a UUID is a parameter.
use nightowl.Base.{
  ℕ, suc, ◌/◌, String, Bool, true, false, ◌&&◌, not, List, [], ◌∷◌, ◌++◌, map, Option, none, some,
  ltb, leb, ◌==◌, if◌then◌else◌, is_some_of, find, select, count, update, sort_by, sort_with,
}
use nightowl.Sql.{Sql, SqlError, no_rows, failed, Result, ok, err, statement, query, exec}
use nightowl.Schema.{Database, User, Roster, Member, ScheduleRow, Override}

-- ScheduleEntry: a row with the names of the two users.
pub record ScheduleEntry : Type 0 where
  pub row : ScheduleRow
  pub open row use *
  pub primary_display_name : String
  pub secondary_display_name : String

-- OverrideResponse.
pub record OverrideResponse : Type 0 where
  pub override : Override
  pub open override use *
  pub display_name : String

-- ORDER BY created_at DESC, where rosters of equal times keep the order of the table.
unfoldable pub list_rosters : Sql Database SqlError (List Roster)
list_rosters = query (λ db. ok (sort_with (λ r s. leb s.created_at r.created_at) db.rosters))

-- A time as the parameter of a `DATE` column.
abbrev pub date_of : ℕ → ℕ
date_of t = t / 86400

-- `COALESCE(u.display_name, default)` over `LEFT JOIN users u`.
abbrev name_or : Option User → String → String
name_or none default = default
name_or (some user) default = user.display_name

unfoldable pub user_name : Database → Option ℕ → String → String
user_name db none default = default
user_name db (some id) default = name_or (find (λ u. u.id == id) db.users) default

-- A `SELECT` of one row.
abbrev pub one_row {ℓ} : {A : Type ℓ} → Option A → Result SqlError A
one_row none = err no_rows
one_row (some a) = ok a

-- `errors.Is(err, pgx.ErrNoRows)` answered by `nil, nil`.
abbrev pub nil_if_no_rows {ℓ} : {A : Type ℓ} → Option A → Result SqlError (Option A)
nil_if_no_rows row = ok row

unfoldable pub get_roster : ℕ → Sql Database SqlError Roster
get_roster id = query (λ db. one_row (find (λ r. r.id == id) db.rosters))

unfoldable pub list_active_members : ℕ → Sql Database SqlError (List Member)
list_active_members roster_id = query λ db. ok (
    sort_by (λ m. m.joined_at)
      (select (λ m. m.roster_id == roster_id && m.is_active) db.roster_members))

-- ON CONFLICT (roster_id, user_id) DO UPDATE
abbrev pub is_member : ℕ → ℕ → Member → Bool
is_member roster_id user_id m = m.roster_id == roster_id && m.user_id == user_id

unfoldable pub add_member_row : ℕ → ℕ → Database → Result SqlError Member × Database
add_member_row roster_id user_id db = elim (find (is_member roster_id user_id) db.roster_members) [
  | some old ↦ (
    ok (record old { is_active = true; left_at = none }),
    record db {
      roster_members =
          update (is_member roster_id user_id) (λ m. record m { is_active = true; left_at = none })
            db.roster_members;
    },
  )
  | none ↦
      let new : Member = record {
        id = db.next_id;
        roster_id = roster_id;
        user_id = user_id;
        is_active = true;
        joined_at = db.now;
        left_at = none;
      } in
      (
        ok new,
        record db { next_id = suc db.next_id; roster_members = db.roster_members ++ new ∷ [] },
      )
]

unfoldable pub add_member : ℕ → ℕ → Sql Database SqlError Member
add_member roster_id user_id = statement (add_member_row roster_id user_id)

unfoldable pub deactivate_member : ℕ → ℕ → Sql Database SqlError (Unit {0})
deactivate_member roster_id user_id = exec λ db. record db {
  roster_members =
      update (is_member roster_id user_id)
        (λ m. record m { is_active = false; left_at = some db.now }) db.roster_members;
}

unfoldable pub set_member_active : ℕ → ℕ → Bool → Sql Database SqlError (Unit {0})
set_member_active roster_id user_id true = exec λ db. record db {
  roster_members =
      update (is_member roster_id user_id) (λ m. record m { is_active = true; left_at = none })
        db.roster_members;
}
set_member_active roster_id user_id false = deactivate_member roster_id user_id

-- UNIQUE (roster_id, week_start)
abbrev pub is_week : ℕ → ℕ → ScheduleRow → Bool
is_week roster_id week_start row = row.roster_id == roster_id && row.week_start == week_start

abbrev pub entry_of : Database → ScheduleRow → ScheduleEntry
entry_of db row = record {
  row = row;
  primary_display_name = user_name db row.primary_user_id "";
  secondary_display_name = user_name db row.secondary_user_id "";
}

-- `from` and `to` are dates here, and both ends are included.
unfoldable pub list_schedule : ℕ → ℕ → ℕ → Sql Database SqlError (List ScheduleEntry)
list_schedule roster_id from to = query λ db. ok (
    map (entry_of db) (
      sort_by (λ row. row.week_start)
        (select
          (λ row. row.roster_id == roster_id && leb from row.week_start && leb row.week_start to)
          db.roster_schedule)))

unfoldable pub get_schedule_week : ℕ → ℕ → Sql Database SqlError (Option ScheduleEntry)
get_schedule_week roster_id week_start = query λ db.
    nil_if_no_rows (elim (find (is_week roster_id week_start) db.roster_schedule) [
      | none ↦ none
      | some row ↦ some (entry_of db row)
    ])

abbrev pub covers : ℕ → ℕ → ScheduleRow → Bool
covers roster_id day row =
    row.roster_id == roster_id && leb row.week_start day && ltb day row.week_end

unfoldable pub get_schedule_for_time : ℕ → ℕ → Sql Database SqlError (Option ScheduleEntry)
get_schedule_for_time roster_id at = query λ db.
    nil_if_no_rows (elim (find (covers roster_id (date_of at)) db.roster_schedule) [
      | none ↦ none
      | some row ↦ some (entry_of db row)
    ])

unfoldable pub count_primary_weeks : ℕ → ℕ → Sql Database SqlError ℕ
count_primary_weeks roster_id user_id = query λ db. ok (
    count (λ row. row.roster_id == roster_id && is_some_of row.primary_user_id user_id)
      db.roster_schedule)

unfoldable pub count_secondary_weeks : ℕ → ℕ → Sql Database SqlError ℕ
count_secondary_weeks roster_id user_id = query λ db. ok (
    count (λ row. row.roster_id == roster_id && is_some_of row.secondary_user_id user_id)
      db.roster_schedule)

unfoldable pub count_primary_weeks_before : ℕ → ℕ → ℕ → Sql Database SqlError ℕ
count_primary_weeks_before roster_id user_id before = query λ db. ok (
    count
      (λ row.
        row.roster_id == roster_id
        && is_some_of row.primary_user_id user_id
        && ltb row.week_start before)
      db.roster_schedule)

unfoldable pub count_secondary_weeks_before : ℕ → ℕ → ℕ → Sql Database SqlError ℕ
count_secondary_weeks_before roster_id user_id before = query λ db. ok (
    count
      (λ row.
        row.roster_id == roster_id
        && is_some_of row.secondary_user_id user_id
        && ltb row.week_start before)
      db.roster_schedule)

-- The columns of one week, as `UpsertScheduleWeek` sets them.
pub record WeekPlan : Type 0 where
  pub week_start : ℕ
  pub week_end : ℕ
  pub primary_uid : Option ℕ
  pub secondary_uid : Option ℕ
  pub is_locked : Bool
  pub generated : Bool
  pub notes : Option String

-- CHECK (primary_user_id IS DISTINCT FROM secondary_user_id): two NULLs are not distinct.
abbrev pub is_distinct : Option ℕ → Option ℕ → Bool
is_distinct none none = false
is_distinct none (some b) = true
is_distinct (some a) none = true
is_distinct (some a) (some b) = not (a == b)

abbrev pub overwrite_week : ℕ → WeekPlan → ScheduleRow → ScheduleRow
overwrite_week now plan row = record row {
  primary_user_id = plan.primary_uid;
  secondary_user_id = plan.secondary_uid;
  is_locked = plan.is_locked;
  generated = plan.generated;
  notes = plan.notes;
  updated_at = now;
}

abbrev pub new_week : ℕ → ℕ → ℕ → WeekPlan → ScheduleRow
new_week id now roster_id plan = record {
  id = id;
  roster_id = roster_id;
  week_start = plan.week_start;
  week_end = plan.week_end;
  primary_user_id = plan.primary_uid;
  secondary_user_id = plan.secondary_uid;
  is_locked = plan.is_locked;
  generated = plan.generated;
  notes = plan.notes;
  created_at = now;
  updated_at = now;
}

abbrev pub store_week :
    ℕ → WeekPlan → Database → Option ScheduleRow → Result SqlError ScheduleRow × Database
store_week roster_id plan db (some old) = (
  ok (overwrite_week db.now plan old),
  record db {
    roster_schedule =
        update (is_week roster_id plan.week_start) (overwrite_week db.now plan) db.roster_schedule;
  },
)
store_week roster_id plan db none =
    let row = new_week db.next_id db.now roster_id plan in
    (
      ok row,
      record db { next_id = suc db.next_id; roster_schedule = db.roster_schedule ++ row ∷ [] },
    )

unfoldable pub upsert_week_row : ℕ → WeekPlan → Database → Result SqlError ScheduleRow × Database
upsert_week_row roster_id plan db =
    if is_distinct plan.primary_uid plan.secondary_uid && ltb plan.week_start plan.week_end
    then store_week roster_id plan db (find (is_week roster_id plan.week_start) db.roster_schedule)
    else (err failed, db)

-- SELECT display_name FROM users WHERE id = $1
abbrev found_name : Option User → Result SqlError String
found_name none = err no_rows
found_name (some user) = ok user.display_name

unfoldable pub get_user_display_name : ℕ → Sql Database SqlError String
get_user_display_name user_id = query (λ db. found_name (find (λ u. u.id == user_id) db.users))

unfoldable pub list_overrides_in_range :
    (ℕ → String) → ℕ → ℕ → ℕ → Sql Database SqlError (List OverrideResponse)
list_overrides_in_range uuid_text roster_id from to = query λ db. ok (
    map
      (λ o. record {
        override = o;
        display_name = user_name db (some o.user_id) (uuid_text o.user_id);
      })
      (sort_by (λ o. o.start_at)
        (select (λ o. o.roster_id == roster_id && ltb from o.end_at && ltb o.start_at to)
          db.roster_overrides)))

abbrev pub is_active_at : ℕ → ℕ → Override → Bool
is_active_at roster_id at o = o.roster_id == roster_id && leb o.start_at at && ltb at o.end_at

-- LIMIT 1 with no order: the first row is taken.
unfoldable pub get_active_override :
    (ℕ → String) → ℕ → ℕ → Sql Database SqlError (Option OverrideResponse)
get_active_override uuid_text roster_id at = query λ db.
    nil_if_no_rows (elim (find (is_active_at roster_id at) db.roster_overrides) [
      | none ↦ none
      | some o ↦ some (record {
        override = o;
        display_name = user_name db (some o.user_id) (uuid_text o.user_id);
      })
    ])
