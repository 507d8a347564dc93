-- ===== src/Tests/Requests.antt =====
-- Runs of the roster handlers.
use nightowl.Base.{ℕ, ◌*◌, ◌+◌, ◌≡◌, refl, arith, true, false, [], ◌∷◌, map, none, some}
use nightowl.Sql.{ok, healthy, statement, ◌>>=◌}
use nightowl.Schema.{Roster}
use nightowl.Http.{answered}
use nightowl.Roster.Crud.{
  CreateRosterRequest, UpdateRosterRequest, update_roster, parse_handoff_time, parse_end_date,
  update_roster_row, overwrite_roster, delete_roster, delete_roster_row,
}
use nightowl.Roster.Handler.{
  Externals, audited, handle_create_roster, handle_get_roster, handle_update_roster,
  handle_delete_roster,
}
use nightowl.Roster.Calendar.{Clock, generate_ics, ics_lines, week_events, override_events}
use nightowl.Roster.Settings.{settings, update_keeps_settings}
use nightowl.Roster.Deleted.{IsDeletion, delete_roster_lem}
use nightowl.Roster.Created.{create_roster-get}
use nightowl.Tests.Data.{with_roster, night}

-- Every id is that of the roster 7 or of the next row, every time is 21:30.
abbrev externals : ℕ → Externals
externals id = record {
  parse_id = λ _. some id;
  parse_clock = λ _. some (21, 30);
  parse_day = λ _. none;
  parse_instant = λ _. none;
  scan_number = λ _. none;
  uuid_text = λ _. "id";
  load_location = λ _. none;
}

abbrev day_shift : CreateRosterRequest
day_shift = record {
  name = "day";
  description = none;
  timezone = "UTC";
  handoff_time = "21:30";
  handoff_day = 1;
  schedule_weeks_ahead = 0;
  max_consecutive_weeks = 3;
  is_follow_the_sun = false;
  linked_roster_id = none;
  active_hours_start = some "21:30";
  active_hours_end = some "";
  escalation_policy_id = none;
  end_date = none;
}

-- A request to make the roster inactive.
abbrev inactive : UpdateRosterRequest
inactive = record {
  name = "late";
  description = none;
  timezone = "UTC";
  handoff_time = "21:30";
  handoff_day = 1;
  schedule_weeks_ahead = 0;
  max_consecutive_weeks = 3;
  end_date = none;
  is_active = some false;
}

update_keeps_settings_example :
    map settings
      (handle_update_roster (externals 7) "7" (some inactive) (healthy with_roster)).1.db.rosters
    ≡ map settings with_roster.rosters
update_keeps_settings_example =
    update_keeps_settings (externals 7) "7" (some inactive) (healthy with_roster)

-- The name does change.
updated_name :
    map
      (λ r. r.name)
      (handle_update_roster (externals 7) "7" (some inactive) (healthy with_roster)).1.db.rosters
    ≡ "late" ∷ []
unfolding handle_update_roster ◌>>=◌ update_roster parse_handoff_time parse_end_date statement
    update_roster_row audited overwrite_roster
updated_name = refl

delete_roster_lem_example :
    IsDeletion 7 with_roster
      (handle_delete_roster (externals 7) "7" (healthy with_roster)).0
      (handle_delete_roster (externals 7) "7" (healthy with_roster)).1.db
delete_roster_lem_example = delete_roster_lem (externals 7) "7" 7 (healthy with_roster) refl

deleted_roster : (handle_delete_roster (externals 7) "7" (healthy with_roster)).0 ≡ ok (answered tt)
unfolding handle_delete_roster ◌>>=◌ delete_roster statement delete_roster_row audited
deleted_roster = refl

create_roster-get_example :
    (r : Roster) × ((handle_create_roster (externals 100) (some day_shift) (healthy with_roster)).0
      ≡ ok (answered r))
    × ((handle_get_roster (externals 100) "100" (
          healthy
            (handle_create_roster (externals 100) (some day_shift) (healthy with_roster)).1.db)).0
        ≡ ok (answered r))
    × (r.is_active ≡ true)
    × (r.handoff_time ≡ some (21 * 60 + 30))
    × (r.end_date ≡ none)
unfolding parse_end_date
create_roster-get_example =
    create_roster-get (externals 100) day_shift 21 30 none "100" with_roster refl (ground arith)
      (ground arith) refl refl

abbrev clock : Clock
clock = record {
  local_instant = λ _. none;
  utc_instant = λ day minute. day * 86400 + minute * 60;
  stamp = λ _. "t";
  day_text = λ _. "d";
}

empty_calendar :
    generate_ics (λ _. "id") clock night [] []
    ≡ "BEGIN:VCALENDAR\r\nVERSION:2.0\r\nPRODID:-//NightOwl//Roster//EN\r\nX-WR-CALNAME:night On-Call\r\nCALSCALE:GREGORIAN\r\nMETHOD:PUBLISH\r\nEND:VCALENDAR\r\n"
unfolding generate_ics ics_lines week_events override_events
empty_calendar = refl
