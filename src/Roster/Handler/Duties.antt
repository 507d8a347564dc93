-- ===== src/Roster/Handler/Duties.antt =====
-- The HTTP handlers of a roster's weeks, members and overrides, and of the coverage
-- (pkg/roster/handler.go).
use nightowl.Base.{ℕ, ◌+◌, ◌*◌, ◌/◌, String, Bool, List, Option, if◌then◌else◌}
use nightowl.Sql.{pure, gets, ◌>>=◌, attempt}
use nightowl.Schema.{Member}
use nightowl.Http.{bad_request}
use nightowl.Roster.Store.{ScheduleEntry, OverrideResponse, get_roster}
use nightowl.Roster.Weeks.{
  update_schedule_week, unlock_schedule_week, create_override, delete_override,
}
use nightowl.Roster.Generate.{generate_schedule}
use nightowl.Roster.Coverage.{CoverageResponse, get_coverage}
use nightowl.Roster.Lists.{MemberResponse, list_members, list_overrides}
use nightowl.Roster.Service.{add_member_to, deactivate_member_of, set_active_of}
use nightowl.Roster.Handler.{
  Externals, Handled, with_parsed, with_body, or_internal, or_not_found, audited_or_internal,
  with_roster, same_user, given, start_or, weeks_or, parsed_or,
}

pub record UpdateScheduleWeekRequest : Type 0 where
  pub primary_user_id : Option ℕ
  pub secondary_user_id : Option ℕ
  pub notes : Option String

pub record GenerateScheduleRequest : Type 0 where
  pub from : Option String
  pub weeks : Option ℕ

pub record CreateOverrideRequest : Type 0 where
  pub user_id : ℕ
  pub start_at : String
  pub end_at : String
  pub reason : Option String

-- `rosterID, _ := parseRosterID(r)`: an id that does not parse is uuid.Nil.
abbrev pub id_or_nil : Option ℕ → ℕ
id_or_nil id = parsed_or id 0

abbrev pub member_action : Bool → String
member_action active = if active then "activate_member" else "deactivate_member"

module _ (x : Externals) where
  unfoldable pub handle_update_schedule_week :
      String → String → Option UpdateScheduleWeekRequest → Handled ScheduleEntry
  handle_update_schedule_week id week body = with_parsed (x.parse_id id) (λ n.
      with_parsed (x.parse_day week) (λ day. with_body body (λ req.
        if same_user req.primary_user_id req.secondary_user_id then pure bad_request else (do
          r ← attempt (
              update_schedule_week x.uuid_text n day req.primary_user_id req.secondary_user_id
                req.notes)
          audited_or_internal "update_schedule" n r))))

  unfoldable pub handle_unlock_schedule_week : String → String → Handled (Unit {0})
  handle_unlock_schedule_week id week = with_parsed (x.parse_id id) (λ n.
      with_parsed (x.parse_day week)
        (λ day. do r ← attempt (unlock_schedule_week n day); pure (or_not_found r)))

  unfoldable pub handle_generate_schedule :
      String → Option GenerateScheduleRequest → Handled (List ScheduleEntry)
  handle_generate_schedule id body = with_parsed (x.parse_id id) (λ n. with_body body (λ req. do
    found ← attempt (get_roster n)
    with_roster found (λ roster. do
      now ← gets (λ db. db.now)
      with_parsed (start_or x.parse_day req.from now) (λ from. do
        r ←
            attempt (
              generate_schedule x.uuid_text n from (weeks_or req.weeks roster.schedule_weeks_ahead))
        audited_or_internal "generate_schedule" n r))))

  unfoldable pub handle_list_members : String → Handled (List MemberResponse)
  handle_list_members id =
      with_parsed (x.parse_id id)
        (λ n. do r ← attempt (list_members x.uuid_text n); pure (or_internal r))

  -- The request's body is the id of the user.
  unfoldable pub handle_add_member : String → Option ℕ → Handled Member
  handle_add_member id body = with_parsed (x.parse_id id) (λ n. with_body body (λ user. do
    r ← attempt (add_member_to x.uuid_text n user)
    audited_or_internal "add_member" n r))

  -- The request's body is whether the member is to be active.
  unfoldable pub handle_update_member : String → String → Option Bool → Handled (Unit {0})
  handle_update_member id user body = with_parsed (x.parse_id id) (λ n.
      with_parsed (x.parse_id user) (λ u. with_body body (λ active. do
        r ← attempt (set_active_of x.uuid_text n u active)
        audited_or_internal (member_action active) n r)))

  unfoldable pub handle_deactivate_member : String → String → Handled (Unit {0})
  handle_deactivate_member id user = with_parsed (x.parse_id id) (λ n.
      with_parsed (x.parse_id user) (λ u. do
        r ← attempt (deactivate_member_of x.uuid_text n u)
        audited_or_internal "deactivate_member" n r))

  unfoldable pub handle_list_overrides : String → Handled (List OverrideResponse)
  handle_list_overrides id =
      with_parsed (x.parse_id id)
        (λ n. do r ← attempt (list_overrides x.uuid_text n); pure (or_internal r))

  -- `caller` is callerUUID.
  unfoldable pub handle_create_override :
      String → Option CreateOverrideRequest → Option ℕ → Handled OverrideResponse
  handle_create_override id body caller = with_parsed (x.parse_id id) (λ n. with_body body (λ req.
      do
        r ← attempt (
            create_override x.uuid_text n req.user_id (x.parse_instant req.start_at)
              (x.parse_instant req.end_at) req.reason caller)
        audited_or_internal "create_override" n r))

  -- The override is deleted by its own id: the roster of the path is only logged.
  unfoldable pub handle_delete_override : String → String → Handled (Unit {0})
  handle_delete_override id override_id = with_parsed (x.parse_id override_id) (λ o. do
    r ← attempt (delete_override o)
    audited_or_internal "delete_override" (id_or_nil (x.parse_id id)) r)

  -- From the midnight before now, two weeks by the hour, or as given; the resolution is 0 where it
  -- is to be 60, which GetCoverage does.
  unfoldable pub handle_get_coverage : String → String → String → Handled CoverageResponse
  handle_get_coverage from to resolution = do
    now ← gets (λ db. db.now)
    let midnight = now / 86400 * 86400
    r ← attempt (
        get_coverage x.load_location x.uuid_text (given x.scan_number resolution 60)
          (given x.parse_instant from midnight) (given x.parse_instant to (midnight + 14 * 86400)))
    pure (or_internal r)
