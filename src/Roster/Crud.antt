-- ===== src/Roster/Crud.antt =====
-- Creating, changing, deleting and listing rosters (pkg/roster/store.go, the helpers on times of
-- roster.go, and the calls of service.go that pass them on). `parse_clock` and `parse_day` are time.Parse with the layouts of a time of day and of a
-- date; a number of weeks that is not positive is 0, since it is replaced alike.
use nightowl.Base.{
  ℕ, suc, ◌+◌, ◌*◌, ◌/◌, ◌%◌, String, str_eq, Bool, true, not, ◌&&◌, ◌∷◌, Option, none, some, ◌==◌,
  if◌then◌else◌, is_some_of, find, select, update,
}
use nightowl.Sql.{Sql, SqlError, no_rows, failed, Result, ok, err, raise, statement, exec, wrap}
use nightowl.Schema.{Database, Roster}

pub record CreateRosterRequest : Type 0 where
  pub name : String
  pub description : Option String
  pub timezone : String
  pub handoff_time : String
  pub handoff_day : ℕ
  pub schedule_weeks_ahead : ℕ
  pub max_consecutive_weeks : ℕ
  pub is_follow_the_sun : Bool
  pub linked_roster_id : Option ℕ
  pub active_hours_start : Option String
  pub active_hours_end : Option String
  pub escalation_policy_id : Option ℕ
  pub end_date : Option String

pub record UpdateRosterRequest : Type 0 where
  pub name : String
  pub description : Option String
  pub timezone : String
  pub handoff_time : String
  pub handoff_day : ℕ
  pub schedule_weeks_ahead : ℕ
  pub max_consecutive_weeks : ℕ
  pub end_date : Option String
  pub is_active : Option Bool

-- The errors of the store: a time or a date that does not parse, or the driver's.
pub data RosterError : Type 0 where
  invalid_handoff_time invalid_end_date : RosterError
  storing_roster : SqlError → RosterError

-- pgtypeTimeToString of a valid time in microseconds, as the minutes of the text it formats.
unfoldable pub minutes_of : ℕ → ℕ
minutes_of us =
    let hours = us / 3600000000 in
    let minutes = (us % 3600000000) / 60000000 in (hours * 60 + minutes) % 1440

-- What scanRoster makes of a column for a time.
abbrev scan_time : Option ℕ → Option (Option ℕ)
scan_time none = none
scan_time (some us) = some (some (minutes_of us))

abbrev or_default : ℕ → ℕ → ℕ
or_default weeks default = if weeks == 0 then default else weeks

module _ (parse_clock : String → Option (ℕ × ℕ)) where
  abbrev microseconds : Option (ℕ × ℕ) → Option ℕ
  microseconds none = none
  microseconds (some (hour, minute)) = some (hour * 3600000000 + minute * 60000000)

  -- parseHandoffTime: `none` is the error.
  unfoldable pub parse_handoff_time : String → Option ℕ
  parse_handoff_time s = microseconds (parse_clock s)

  -- parseOptionalTime: a text that does not parse is a time that is not given.
  unfoldable pub parse_optional_time : Option String → Option ℕ
  parse_optional_time none = none
  parse_optional_time (some s) = if str_eq s "" then none else parse_handoff_time s

module _ (parse_day : String → Option ℕ) where
  abbrev given_date : Option ℕ → Result RosterError (Option ℕ)
  given_date none = err invalid_end_date
  given_date (some day) = ok (some day)

  -- `if r.EndDate != nil && *r.EndDate != ""`
  unfoldable pub parse_end_date : Option String → Result RosterError (Option ℕ)
  parse_end_date none = ok none
  parse_end_date (some s) = if str_eq s "" then ok none else given_date (parse_day s)

-- The row as scanRoster reads it.
unfoldable pub new_roster :
    (String → Option (ℕ × ℕ)) → Database → CreateRosterRequest → ℕ → Option ℕ → Roster
new_roster parse_clock db r handoff end_date = record {
  id = db.next_id;
  name = r.name;
  description = r.description;
  timezone = r.timezone;
  handoff_time = some (minutes_of handoff);
  handoff_day = r.handoff_day;
  schedule_weeks_ahead = or_default r.schedule_weeks_ahead 12;
  max_consecutive_weeks = or_default r.max_consecutive_weeks 2;
  is_follow_the_sun = r.is_follow_the_sun;
  linked_roster_id = r.linked_roster_id;
  active_hours_start = scan_time (parse_optional_time parse_clock r.active_hours_start);
  active_hours_end = scan_time (parse_optional_time parse_clock r.active_hours_end);
  escalation_policy_id = r.escalation_policy_id;
  end_date = end_date;
  is_active = true;
  created_at = db.now;
  updated_at = db.now;
}

-- The table holds the rosters newest first.
unfoldable pub insert_roster :
    (String → Option (ℕ × ℕ))
    → CreateRosterRequest
    → ℕ
    → Option ℕ
    → Database
    → Result SqlError Roster × Database
insert_roster parse_clock r handoff end_date db =
    let row = new_roster parse_clock db r handoff end_date in
    (ok row, record db { next_id = suc db.next_id; rosters = row ∷ db.rosters })

-- The columns that UpdateRoster sets.
unfoldable pub overwrite_roster : ℕ → UpdateRosterRequest → ℕ → Option ℕ → Roster → Roster
overwrite_roster now r handoff end_date row = record row {
  name = r.name;
  description = r.description;
  timezone = r.timezone;
  handoff_time = some (minutes_of handoff);
  handoff_day = r.handoff_day;
  schedule_weeks_ahead = or_default r.schedule_weeks_ahead 12;
  max_consecutive_weeks = or_default r.max_consecutive_weeks 2;
  end_date = end_date;
  updated_at = now;
}

unfoldable pub update_roster_row :
    ℕ → UpdateRosterRequest → ℕ → Option ℕ → Database → Result SqlError Roster × Database
update_roster_row id r handoff end_date db = elim (find (λ row. row.id == id) db.rosters) [
  | none ↦ (err no_rows, db)
  | some old ↦ (
    ok (overwrite_roster db.now r handoff end_date old),
    record db {
      rosters =
          update (λ row. row.id == id) (overwrite_roster db.now r handoff end_date) db.rosters;
    },
  )
]

module _ (parse_clock : String → Option (ℕ × ℕ)) (parse_day : String → Option ℕ) where
  abbrev pub insert_dated :
      CreateRosterRequest → ℕ → Result RosterError (Option ℕ) → Sql Database RosterError Roster
  insert_dated r handoff (err e) = raise e
  insert_dated r handoff (ok end_date) =
      wrap storing_roster (statement (insert_roster parse_clock r handoff end_date))

  abbrev pub insert_timed : CreateRosterRequest → Option ℕ → Sql Database RosterError Roster
  insert_timed r none = raise invalid_handoff_time
  insert_timed r (some handoff) = insert_dated r handoff (parse_end_date parse_day r.end_date)

  unfoldable pub create_roster : CreateRosterRequest → Sql Database RosterError Roster
  create_roster r = insert_timed r (parse_handoff_time parse_clock r.handoff_time)

  abbrev pub update_dated :
      ℕ → UpdateRosterRequest → ℕ → Result RosterError (Option ℕ) → Sql Database RosterError Roster
  update_dated id r handoff (err e) = raise e
  update_dated id r handoff (ok end_date) =
      wrap storing_roster (statement (update_roster_row id r handoff end_date))

  abbrev pub update_timed : ℕ → UpdateRosterRequest → Option ℕ → Sql Database RosterError Roster
  update_timed id r none = raise invalid_handoff_time
  update_timed id r (some handoff) = update_dated id r handoff (parse_end_date parse_day r.end_date)

  unfoldable pub update_roster : ℕ → UpdateRosterRequest → Sql Database RosterError Roster
  update_roster id r = update_timed id r (parse_handoff_time parse_clock r.handoff_time)

unfoldable pub set_roster_active : ℕ → Bool → Sql Database SqlError (Unit {0})
set_roster_active id active = exec λ db. record db {
  rosters =
      update (λ r. r.id == id) (λ r. record r { is_active = active; updated_at = db.now })
        db.rosters;
}

-- `linked_roster_id UUID REFERENCES rosters(id)`: a roster that another one is linked to stays.
abbrev pub links_to : ℕ → Roster → Bool
links_to id r = is_some_of r.linked_roster_id id && not (r.id == id)

-- ON DELETE CASCADE of the members, the weeks and the overrides.
abbrev pub without_roster : ℕ → Database → Database
without_roster id db = record db {
  rosters = select (λ r. not (r.id == id)) db.rosters;
  roster_members = select (λ m. not (m.roster_id == id)) db.roster_members;
  roster_schedule = select (λ row. not (row.roster_id == id)) db.roster_schedule;
  roster_overrides = select (λ o. not (o.roster_id == id)) db.roster_overrides;
}

-- A statement that affects no row answers ErrNoRows.
unfoldable pub delete_roster_row : ℕ → Database → Result SqlError (Unit {0}) × Database
delete_roster_row id db = elim (find (λ r. r.id == id) db.rosters) [
  | none ↦ (err no_rows, db)
  | some _ ↦ elim (find (links_to id) db.rosters) [
    | none ↦ (ok tt, without_roster id db)
    | some _ ↦ (err failed, db)
  ]
]

unfoldable pub delete_roster : ℕ → Sql Database SqlError (Unit {0})
delete_roster id = statement (delete_roster_row id)
