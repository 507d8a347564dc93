-- ===== src/Roster/Calendar.antt =====
-- The calendar export (pkg/roster/ical.go, handleExportICS of handler.go). `local_instant` is
-- time.Date in a location with time.LoadLocation, which gives the instant of a minute of a day;
-- `stamp` formats an instant in UTC and `day_text` a date.
use nightowl.Base.{
  ℕ, ◌+◌, ◌-◌, ◌*◌, String, str_eq, List, [], ◌∷◌, ◌++◌, Option, none, some, if◌then◌else◌,
}
use nightowl.Base.Texts.{◌<>◌}
use nightowl.Sql.{SqlError, Result, ok, err, pure, gets, ◌>>=◌, attempt}
use nightowl.Schema.{Roster}
use nightowl.Http.{answered, internal_error}
use nightowl.Roster.Store.{ScheduleEntry, OverrideResponse, date_of, get_roster, list_schedule}
use nightowl.Roster.Lists.{list_overrides}
use nightowl.Roster.Handler.{Externals, Handled, with_parsed, with_roster}

pub record Clock : Type 0 where
  pub local_instant : String → Option (ℕ → ℕ → ℕ)
  pub utc_instant : ℕ → ℕ → ℕ
  pub stamp : ℕ → String
  pub day_text : ℕ → String

-- The lines of the feed, each of which is written with a carriage return and a line feed.
abbrev pub write_lines : List String → String
write_lines [] = ""
write_lines (l ∷ ls) = l <> "\r\n" <> write_lines ls

-- `if tz, err := time.LoadLocation(...)`: UTC for an unknown zone.
abbrev instant_in : Clock → Option (ℕ → ℕ → ℕ) → ℕ → ℕ → ℕ
instant_in k none = k.utc_instant
instant_in k (some at) = at

-- 09:00 for a time that does not parse.
abbrev minutes_or_nine : Option ℕ → ℕ
minutes_or_nine none = 540
minutes_or_nine (some m) = m

abbrev name_or_unassigned : String → String
name_or_unassigned name = if str_eq name "" then "Unassigned" else name

abbrev unless_empty : String → String → String
unless_empty label text = if str_eq text "" then "" else label <> text

abbrev text_or_empty : Option String → String
text_or_empty none = ""
text_or_empty (some s) = s

module _ (uuid_text : ℕ → String) (k : Clock) where
  unfoldable pub description : Roster → ScheduleEntry → String
  description roster entry =
      "Roster: "
      <> roster.name
      <> "\\nPrimary: "
      <> name_or_unassigned entry.primary_display_name
      <> unless_empty "\\nSecondary: " entry.secondary_display_name
      <> unless_empty "\\nNotes: " (text_or_empty entry.notes)

  unfoldable pub week_event : Roster → ScheduleEntry → List String
  week_event roster entry =
      let at = instant_in k (k.local_instant roster.timezone) in
      let handoff = minutes_or_nine roster.handoff_time in
      "BEGIN:VEVENT"
      ∷ ("UID:" <> uuid_text roster.id <> "-" <> k.day_text entry.week_start <> "@nightowl")
      ∷ ("DTSTART:" <> k.stamp (at entry.week_start handoff))
      ∷ ("DTEND:" <> k.stamp (at entry.week_end handoff))
      ∷ ("SUMMARY:On-Call: " <> name_or_unassigned entry.primary_display_name)
      ∷ ("DESCRIPTION:" <> description roster entry)
      ∷ "END:VEVENT"
      ∷ []

  unfoldable pub override_event : Roster → OverrideResponse → List String
  override_event roster o =
      "BEGIN:VEVENT"
      ∷ ("UID:override-" <> uuid_text o.id <> "@nightowl")
      ∷ ("DTSTART:" <> k.stamp o.start_at)
      ∷ ("DTEND:" <> k.stamp o.end_at)
      ∷ ("SUMMARY:Override: " <> o.display_name)
      ∷ ("DESCRIPTION:Override on " <> roster.name <> "\\nReason: " <> text_or_empty o.reason)
      ∷ "END:VEVENT"
      ∷ []

  unfoldable pub week_events : Roster → List ScheduleEntry → List String
  week_events roster [] = []
  week_events roster (e ∷ es) = week_event roster e ++ week_events roster es

  unfoldable pub override_events : Roster → List OverrideResponse → List String
  override_events roster [] = []
  override_events roster (o ∷ os) = override_event roster o ++ override_events roster os

  unfoldable pub ics_lines : Roster → List ScheduleEntry → List OverrideResponse → List String
  ics_lines roster schedule overrides =
      "BEGIN:VCALENDAR"
      ∷ "VERSION:2.0"
      ∷ "PRODID:-//NightOwl//Roster//EN"
      ∷ ("X-WR-CALNAME:" <> roster.name <> " On-Call")
      ∷ "CALSCALE:GREGORIAN"
      ∷ "METHOD:PUBLISH"
      ∷ (week_events roster schedule
          ++ (override_events roster overrides ++ ("END:VCALENDAR" ∷ [])))

  -- generateICSFromSchedule
  unfoldable pub generate_ics : Roster → List ScheduleEntry → List OverrideResponse → String
  generate_ics roster schedule overrides = write_lines (ics_lines roster schedule overrides)

  abbrev pub export_overrides :
      Roster → List ScheduleEntry → Result SqlError (List OverrideResponse) → Handled String
  export_overrides roster schedule (ok overrides) =
      pure (answered (generate_ics roster schedule overrides))
  export_overrides roster schedule (err e) = pure internal_error

  abbrev pub export_schedule : ℕ → Roster → Result SqlError (List ScheduleEntry) → Handled String
  export_schedule id roster (ok schedule) = do
    overrides ← attempt (list_overrides uuid_text id)
    export_overrides roster schedule overrides
  export_schedule id roster (err e) = pure internal_error

-- handleExportICS
unfoldable pub handle_export_ics : Externals → Clock → String → Handled String
handle_export_ics x k id = with_parsed (x.parse_id id) (λ n. do
  found ← attempt (get_roster n)
  with_roster found (λ roster. do
    now ← gets (λ db. db.now)
    r ← attempt (list_schedule n (date_of now - 28) (date_of now + roster.schedule_weeks_ahead * 7))
    export_schedule x.uuid_text k n roster r))
