-- ===== src/Roster/OnCall.antt =====
-- Who is on call for a roster at an instant (GetOnCall and resolveOnCall of
-- pkg/roster/service.go): an override, else the schedule, else nobody.
pub mod Overrides
use nightowl.Base.{ℕ, String, Option, none, some}
use nightowl.Sql.{Sql, SqlError, Result, ok, err, pure, ◌>>=◌, attempt, wrap}
use nightowl.Schema.{Database, Roster}
use nightowl.Roster.Store.{
  ScheduleEntry, OverrideResponse, get_roster, get_active_override, get_schedule_for_time,
}
use nightowl.Roster.Generate.{result_or}

pub data Source : Type 0 where
  override schedule unassigned : Source

pub record OnCallEntry : Type 0 where
  pub user_id : ℕ
  pub display_name : String

pub record OnCallResponse : Type 0 where
  pub roster_id : ℕ
  pub roster_name : String
  pub queried_at : ℕ
  pub source : Source
  pub primary : Option OnCallEntry
  pub secondary : Option OnCallEntry
  pub active_override : Option OverrideResponse
  pub week_start : Option ℕ

pub data OnCallError : Type 0 where
  getting_roster checking_override getting_schedule : SqlError → OnCallError

abbrev pub entry_for : Option ℕ → String → Option OnCallEntry
entry_for none name = none
entry_for (some id) name = some (record { user_id = id; display_name = name })

abbrev pub secondary_of : Option ScheduleEntry → Option OnCallEntry
secondary_of none = none
secondary_of (some sched) = entry_for sched.secondary_user_id sched.secondary_display_name

abbrev pub week_of : Option ScheduleEntry → Option ℕ
week_of none = none
week_of (some sched) = some sched.week_start

abbrev pub primary_of : Option ScheduleEntry → Option OnCallEntry
primary_of none = none
primary_of (some sched) = entry_for sched.primary_user_id sched.primary_display_name

abbrev pub source_of : Option ScheduleEntry → Source
source_of none = unassigned
source_of (some sched) = schedule

unfoldable pub answer_override :
    Roster → ℕ → OverrideResponse → Option ScheduleEntry → OnCallResponse
answer_override roster at o sched = record {
  roster_id = roster.id;
  roster_name = roster.name;
  queried_at = at;
  source = override;
  primary = some (record { user_id = o.user_id; display_name = o.display_name });
  secondary = secondary_of sched;
  active_override = some o;
  week_start = week_of sched;
}

unfoldable pub answer_schedule : Roster → ℕ → Option ScheduleEntry → OnCallResponse
answer_schedule roster at sched = record {
  roster_id = roster.id;
  roster_name = roster.name;
  queried_at = at;
  source = source_of sched;
  primary = primary_of sched;
  secondary = secondary_of sched;
  active_override = none;
  week_start = week_of sched;
}

unfoldable pub resolve_schedule :
    Roster → ℕ → Option OverrideResponse → Sql Database OnCallError OnCallResponse
resolve_schedule roster at (some o) = do
  sched ← attempt (get_schedule_for_time roster.id at)
  pure (answer_override roster at o (result_or sched none))
resolve_schedule roster at none = do
  sched ← wrap getting_schedule (get_schedule_for_time roster.id at)
  pure (answer_schedule roster at sched)

unfoldable pub resolve_on_call : (ℕ → String) → Roster → ℕ → Sql Database OnCallError OnCallResponse
resolve_on_call uuid_text roster at = do
  o ← wrap checking_override (get_active_override uuid_text roster.id at)
  resolve_schedule roster at o

unfoldable pub get_on_call : (ℕ → String) → ℕ → ℕ → Sql Database OnCallError OnCallResponse
get_on_call uuid_text roster_id at = do
  roster ← wrap getting_roster (get_roster roster_id)
  resolve_on_call uuid_text roster at
