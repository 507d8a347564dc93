-- ===== src/Roster/Coverage.antt =====
-- Coverage of a time range by the active rosters (GetCoverage and resolveFromCache of
-- pkg/roster/service.go). Durations are in seconds; the response gives them in hours.
pub mod Gaps
use nightowl.Base.{
  ℕ, zero, suc, ◌+◌, ◌-◌, ◌*◌, ◌/◌, String, str_eq, Bool, true, false, ◌&&◌, List, [], ◌∷◌, ◌++◌,
  Option, none, some, ltb, leb, ◌==◌, if◌then◌else◌, find, select, length, map,
}
use nightowl.Sql.{Sql, SqlError, Result, ok, err, pure, query, ◌>>=◌, attempt, wrap}
use nightowl.Schema.{Database, Roster}
use nightowl.Roster.Store.{
  ScheduleEntry, OverrideResponse, date_of, list_rosters, list_schedule, list_overrides_in_range,
}
use nightowl.Roster.Generate.{result_or}
use nightowl.Roster.OnCall.{Source, override, schedule, unassigned}
use nightowl.Roster.Hours.{is_roster_active_at}

pub record CoverageCache : Type 0 where
  pub roster : Roster
  pub entries : List ScheduleEntry
  pub overrides : List OverrideResponse

pub record CoverageSlotRoster : Type 0 where
  pub roster_id : ℕ
  pub roster_name : String
  pub primary : String
  pub secondary : String
  pub source : Source

pub record CoverageSlot : Type 0 where
  pub time : ℕ
  pub coverage : List CoverageSlotRoster
  pub gap : Bool

pub record GapInfo : Type 0 where
  pub start : ℕ
  pub end : ℕ

abbrev pub duration : GapInfo → ℕ
duration g = g.end - g.start

-- The variables of the loop that track gaps.
pub record GapTracking : Type 0 where
  pub in_gap : Bool
  pub gap_start : ℕ
  pub total_gap_minutes : ℕ
  pub gaps : List GapInfo

abbrev named : ScheduleEntry → String × String × Source
named e =
    if str_eq e.primary_display_name ""
    then ("", "", unassigned)
    else (e.primary_display_name, e.secondary_display_name, schedule)

abbrev from_schedule : Option ScheduleEntry → String × String × Source
from_schedule none = ("", "", unassigned)
from_schedule (some e) = named e

abbrev from_override : Option OverrideResponse → String × String × Source → String × String × Source
from_override none rest = rest
from_override (some o) rest = (o.display_name, "", override)

-- A date reads as its midnight in UTC.
unfoldable pub resolve_from_cache : CoverageCache → ℕ → String × String × Source
resolve_from_cache rc at =
    from_override (find (λ o. leb o.start_at at && ltb at o.end_at) rc.overrides) (
      from_schedule
        (find (λ e. leb (e.week_start * 86400) at && ltb at (e.week_end * 86400)) rc.entries))

abbrev slot_roster : CoverageCache → ℕ → CoverageSlotRoster
slot_roster rc at =
    let who = resolve_from_cache rc at in
    record {
      roster_id = rc.roster.id;
      roster_name = rc.roster.name;
      primary = who.0;
      secondary = who.1;
      source = who.2;
    }

unfoldable pub close_gap : ℕ → GapTracking → GapTracking
close_gap end t =
    let info : GapInfo = record { start = t.gap_start; end = end } in
    record t {
      in_gap = false;
      total_gap_minutes = t.total_gap_minutes + duration info / 60;
      gaps = t.gaps ++ info ∷ [];
    }

-- "Track gaps."
unfoldable pub track_gap : Bool → ℕ → GapTracking → GapTracking
track_gap true at t = if t.in_gap then t else record t { in_gap = true; gap_start = at }
track_gap false at t = if t.in_gap then close_gap at t else t

-- After the loop, a gap that is still open ends with the range.
unfoldable pub finish_gaps : ℕ → GapTracking → GapTracking
finish_gaps to t = if t.in_gap then close_gap to t else t

module _ (slot_at : ℕ → CoverageSlot) (to step : ℕ) where
  -- The loop over the instants of the range, on fuel.
  unfoldable pub cover : ℕ → ℕ → GapTracking → List CoverageSlot × GapTracking
  cover zero at t = ([], t)
  cover (suc fuel) at t =
      let slot = slot_at at in
      let rest = cover fuel (at + step) (track_gap slot.gap at t) in
      if ltb at to then (slot ∷ rest.0, rest.1) else ([], t)

pub record CoverageResponse : Type 0 where
  pub resolution_minutes : ℕ
  pub rosters : List Roster
  pub slots : List CoverageSlot
  pub total_gap_minutes : ℕ
  pub gaps : List GapInfo

module _ (load_location : String → Option (ℕ → ℕ)) (uuid_text : ℕ → String) where
  abbrev is_empty {ℓ} : {A : Type ℓ} → List A → Bool
  is_empty [] = true
  is_empty (x ∷ xs) = false

  unfoldable pub slot_for : List CoverageCache → ℕ → CoverageSlot
  slot_for caches at =
      let coverage =
        map (λ rc. slot_roster rc at)
          (select (λ rc. is_roster_active_at load_location rc.roster at) caches) in
      record { time = at; coverage = coverage; gap = is_empty coverage }

  -- "Pre-fetch schedule and override data per roster."
  unfoldable pub load_caches : List Roster → ℕ → ℕ → Sql Database SqlError (List CoverageCache)
  load_caches [] from to = pure []
  load_caches (r ∷ rs) from to = do
    sched ← attempt (list_schedule r.id (date_of from - 7) (date_of to))
    overrides ← attempt (list_overrides_in_range uuid_text r.id from to)
    rest ← load_caches rs from to
    pure (
        record { roster = r; entries = result_or sched []; overrides = result_or overrides [] }
        ∷ rest)

  abbrev no_gap : GapTracking
  no_gap = record { in_gap = false; gap_start = 0; total_gap_minutes = 0; gaps = [] }

  abbrev respond : ℕ → List Roster → ℕ → List CoverageSlot × GapTracking → CoverageResponse
  respond resolution active to covered =
      let t = finish_gaps to covered.1 in
      record {
        resolution_minutes = resolution;
        rosters = active;
        slots = covered.0;
        total_gap_minutes = t.total_gap_minutes;
        gaps = t.gaps;
      }

  abbrev cover_rosters : ℕ → List Roster → ℕ → ℕ → Sql Database SqlError CoverageResponse
  cover_rosters resolution [] from to = pure (record {
    resolution_minutes = resolution;
    rosters = [];
    slots = [];
    total_gap_minutes = 0;
    gaps = [];
  })
  cover_rosters resolution (r ∷ rs) from to = do
    caches ← load_caches (r ∷ rs) from to
    pure (
        respond resolution (r ∷ rs) to
          (cover (slot_for caches) to (resolution * 60) (to - from) from no_gap))

  -- GetCoverage: `to - from` rounds of the loop suffice. A resolution that is not positive is 0.
  unfoldable pub get_coverage : ℕ → ℕ → ℕ → Sql Database SqlError CoverageResponse
  get_coverage requested from to = do
    rosters ← list_rosters
    cover_rosters (if requested == 0 then 60 else requested) (select (λ r. r.is_active) rosters)
        from to
