-- ===== src/Roster/Handler.antt =====
-- The HTTP handlers of rosters (pkg/roster/handler.go), with an audit writer; the calendar export is
-- in Roster/Calendar. A body that DecodeAndValidate of the HTTP library refuses is `none`: the
-- library answers 400 or 422 itself. The schedule of a new roster is generated by a goroutine that
-- handleCreateRoster starts: `initial_schedule` is its run, at whatever moment it comes.
pub mod Duties
use nightowl.Base.{
  ℕ, ◌+◌, ◌-◌, ◌*◌, String, str_eq, Bool, false, List, Option, none, some, ◌==◌, if◌then◌else◌,
}
use nightowl.Sql.{Sql, SqlError, NoError, Result, ok, err, pure, gets, modify, ◌>>=◌, attempt}
use nightowl.Schema.{Database, Roster}
use nightowl.Alerts.Store.{with_audit}
use nightowl.Http.{Answer, answered, bad_request, not_found, internal_error, not_found_or}
pub use nightowl.Http.{Handled, with_parsed, with_body, or_internal, or_not_found}
use nightowl.Roster.Store.{
  ScheduleEntry, date_of, get_roster, list_rosters, list_schedule, get_schedule_week,
}
use nightowl.Roster.Generate.{generate_schedule}
use nightowl.Roster.OnCall.{
  OnCallResponse, OnCallError, getting_roster, checking_override, getting_schedule, get_on_call,
}
use nightowl.Roster.Crud.{
  CreateRosterRequest, UpdateRosterRequest, RosterError, invalid_handoff_time, invalid_end_date,
  storing_roster, create_roster, update_roster, delete_roster,
}

-- What the handlers read with libraries: uuid.Parse, time.Parse with three layouts, fmt.Sscanf of a
-- number (`none` also for a negative one), the text of a UUID, and time.LoadLocation.
pub record Externals : Type 0 where
  pub parse_id : String → Option ℕ
  pub parse_clock : String → Option (ℕ × ℕ)
  pub parse_day : String → Option ℕ
  pub parse_instant : String → Option ℕ
  pub scan_number : String → Option ℕ
  pub uuid_text : ℕ → String
  pub load_location : String → Option (ℕ → ℕ)

-- h.audit.LogFromRequest and the answer.
unfoldable pub audited : {A : Type 0} → String → ℕ → A → Handled A
audited action id a = modify (with_audit action "roster" id) >>= λ _. pure (answered a)

abbrev pub audited_or_internal : {E A : Type 0} → String → ℕ → Result E A → Handled A
audited_or_internal action id (ok a) = audited action id a
audited_or_internal action id (err e) = pure internal_error

abbrev pub cause : RosterError → Option SqlError
cause invalid_handoff_time = none
cause invalid_end_date = none
cause (storing_roster e) = some e

abbrev pub on_call_cause : OnCallError → SqlError
on_call_cause (getting_roster e) = e
on_call_cause (checking_override e) = e
on_call_cause (getting_schedule e) = e

abbrev pub audited_roster :
    String → (RosterError → Answer Roster) → Result RosterError Roster → Handled Roster
audited_roster action refuse (ok r) = audited action r.id r
audited_roster action refuse (err e) = pure (refuse e)

abbrev pub audited_delete : ℕ → Result SqlError (Unit {0}) → Handled (Unit {0})
audited_delete id (ok _) = audited "delete" id tt
audited_delete id (err e) = pure (not_found_or (some e) internal_error)

abbrev pub on_call_answer : Result OnCallError OnCallResponse → Answer OnCallResponse
on_call_answer (ok r) = answered r
on_call_answer (err e) = not_found_or (some (on_call_cause e)) internal_error

-- A missing week answers 404.
abbrev pub week_answer : Result SqlError (Option ScheduleEntry) → Answer ScheduleEntry
week_answer (ok none) = not_found
week_answer (ok (some entry)) = answered entry
week_answer (err e) = internal_error

-- A result that the handler needs to go on.
abbrev pub with_roster : {A : Type 0} → Result SqlError Roster → (Roster → Handled A) → Handled A
with_roster (ok r) k = k r
with_roster (err e) k = pure (not_found_or (some e) internal_error)

-- `req.PrimaryUserID != nil && req.SecondaryUserID != nil && *... == *...`
abbrev pub same_user : Option ℕ → Option ℕ → Bool
same_user none secondary = false
same_user (some p) none = false
same_user (some p) (some s) = p == s

-- A query parameter that is empty or does not parse leaves the default.
abbrev pub parsed_or : Option ℕ → ℕ → ℕ
parsed_or none default = default
parsed_or (some n) default = n

abbrev pub given : (String → Option ℕ) → String → ℕ → ℕ
given parse v default = if str_eq v "" then default else parsed_or (parse v) default

-- `at`, which must parse where it is given.
abbrev pub instant_or : (String → Option ℕ) → String → ℕ → Option ℕ
instant_or parse v now = if str_eq v "" then some now else parse v

-- The start of a schedule: now, or the day that is given.
abbrev pub start_instant : Option ℕ → Option ℕ
start_instant none = none
start_instant (some day) = some (day * 86400)

abbrev pub start_or : (String → Option ℕ) → Option String → ℕ → Option ℕ
start_or parse none now = some now
start_or parse (some v) now = start_instant (parse v)

-- `if req.Weeks != nil && *req.Weeks > 0`; a negative number is 0.
abbrev pub weeks_or : Option ℕ → ℕ → ℕ
weeks_or none ahead = ahead
weeks_or (some weeks) ahead = if weeks == 0 then ahead else weeks

module _ (x : Externals) where
  unfoldable pub handle_create_roster : Option CreateRosterRequest → Handled Roster
  handle_create_roster body = with_body body (λ req. do
    r ← attempt (create_roster x.parse_clock x.parse_day req)
    audited_roster "create" (λ _. internal_error) r)

  unfoldable pub initial_schedule : Roster → Sql Database NoError (Unit {0})
  initial_schedule roster = do
    now ← gets (λ db. db.now)
    done ← attempt (generate_schedule x.uuid_text roster.id now roster.schedule_weeks_ahead)
    pure tt

  unfoldable pub handle_list_rosters : Handled (List Roster)
  handle_list_rosters = do r ← attempt list_rosters; pure (or_internal r)

  unfoldable pub handle_get_roster : String → Handled Roster
  handle_get_roster id =
      with_parsed (x.parse_id id) (λ n. do r ← attempt (get_roster n); pure (or_not_found r))

  unfoldable pub handle_update_roster : String → Option UpdateRosterRequest → Handled Roster
  handle_update_roster id body = with_parsed (x.parse_id id) (λ n. with_body body (λ req. do
    r ← attempt (update_roster x.parse_clock x.parse_day n req)
    audited_roster "update" (λ e. not_found_or (cause e) internal_error) r))

  unfoldable pub handle_delete_roster : String → Handled (Unit {0})
  handle_delete_roster id =
      with_parsed (x.parse_id id) (λ n. do r ← attempt (delete_roster n); audited_delete n r)

  unfoldable pub handle_get_on_call : String → String → Handled OnCallResponse
  handle_get_on_call id v = with_parsed (x.parse_id id) (λ n. do
    now ← gets (λ db. db.now)
    with_parsed (instant_or x.parse_instant v now)
        (λ at. do r ← attempt (get_on_call x.uuid_text n at); pure (on_call_answer r)))

  -- From four weeks ago to the end of what is scheduled, or the given days.
  unfoldable pub handle_list_schedule : String → String → String → Handled (List ScheduleEntry)
  handle_list_schedule id from to = with_parsed (x.parse_id id) (λ n. do
    found ← attempt (get_roster n)
    with_roster found (λ roster. do
      now ← gets (λ db. db.now)
      r ← attempt (
          list_schedule n (given x.parse_day from (date_of now - 28))
            (given x.parse_day to (date_of now + roster.schedule_weeks_ahead * 7)))
      pure (or_internal r)))

  unfoldable pub handle_get_schedule_week : String → String → Handled ScheduleEntry
  handle_get_schedule_week id week = with_parsed (x.parse_id id) (λ n.
      with_parsed (x.parse_day week)
        (λ day. do r ← attempt (get_schedule_week n day); pure (week_answer r)))
