-- ===== src/Tests/Rosters.antt =====
-- Runs of the scheduler, of on-call resolution, of the hours and of coverage.
use mathlib.Core.Option
use nightowl.Base.{
  String, Option, ◌/◌, ◌%◌, ℕ, ◌*◌, ◌+◌, ◌<◌, ◌≡◌, ◌≢◌, ◌⊎◌, inl, inr, refl, Bool, true, false,
  List, [], ◌∷◌, map, none, some, All, length, arith, ◌==◌, ltb,
}
use nightowl.Sql.{ok, healthy}
use nightowl.Sql.Meets.{Meets}
use nightowl.Schema.{Roster, Member}
use nightowl.Roster.Pick.{Counts, pick_primary, pick_secondary, least, consider, is_blocked}
use nightowl.Roster.Pick.Laws.{IsFairPrimary, pick_primary_fair, pick_secondary_fair}
use nightowl.Roster.Pick.Least.{IsLeast}
use nightowl.Roster.Generate.{Tracking, generate_weeks, generate_schedule, locked_entry}
use nightowl.Roster.Generate.Plan.{assignment, plan_weeks}
use nightowl.Roster.Generate.Refines.{generate_weeks_refines}
use nightowl.Roster.Generate.Runs.{RunsWithin, plan-RunsWithin}
use nightowl.Roster.Generate.Duties.{AreDuties, generate_weeks_duties}
use nightowl.Roster.Generate.Locked.{HasWeek, generate_schedule_keeps_locked}
use nightowl.Roster.OnCall.{OnCallResponse, override, resolve_on_call}
use nightowl.Roster.OnCall.Overrides.{with_override, override_takes_over, override_elsewhere}
use nightowl.Roster.Coverage.{CoverageSlot, GapTracking, cover, finish_gaps}
use nightowl.Roster.Coverage.Gaps.{AreSlots, total, uncovered, coverage_gaps}
use nightowl.Tests.Data.{member, night, locked_week, with_roster}

abbrev two : List Member
two = member 1 ∷ member 2 ∷ []

abbrev counts : Counts
counts user = if_first (user == 1)
  where
    if_first : Bool → ℕ
    if_first true = 3
    if_first false = 4

pick_primary_fair_example :
    (user : ℕ) × (pick_primary two counts (some 1) 2 2 ≡ some user)
    × IsFairPrimary two counts (some 1) 2 2 user
pick_primary_fair_example = pick_primary_fair (member 1) (member 2 ∷ []) counts (some 1) 2 2

picked : pick_primary two counts (some 1) 2 2 ≡ some 2
unfolding pick_primary least consider is_blocked
picked = refl

pick_secondary_fair_example :
    ((pick_secondary two counts counts 1 ≡ none) × All (λ m. (m.user_id == 1) ≡ true) two)
    ⊎ ((user : ℕ) × (pick_secondary two counts counts 1 ≡ some user)
        × (user ≢ 1)
        × IsLeast (λ u. u == 1) (λ u. counts u + counts u) two user)
pick_secondary_fair_example = pick_secondary_fair two counts counts 1

abbrev fresh : Tracking
fresh = record {
  primary_count = λ _. 0;
  secondary_count = λ _. 0;
  last_primary = none;
  consecutive_count = 0;
}

generate_weeks_refines_example :
    Meets
      (λ entries. map assignment entries ≡ plan_weeks two 1 [] 3 8 fresh)
      (generate_weeks (λ _. "") 7 two 1 [] 3 8 fresh)
generate_weeks_refines_example =
    generate_weeks_refines (λ _. "") 7 (member 1) (member 2 ∷ []) 1 [] 3 8 fresh

generate_weeks_duties_example :
    Meets
      (λ entries.
        (length (map assignment entries) ≡ 3) × AreDuties two [] 8 (map assignment entries))
      (generate_weeks (λ _. "") 7 two 1 [] 3 8 fresh)
generate_weeks_duties_example =
    generate_weeks_duties (member 1) (member 2 ∷ []) 1 (λ _. "") 7 [] 3 8 fresh

unlocked : (w : ℕ) → locked_entry [] w ≡ none
unfolding locked_entry
unlocked w = refl

plan-RunsWithin_example : RunsWithin 1 none 0 (plan_weeks two 1 [] 3 8 fresh)
plan-RunsWithin_example =
    plan-RunsWithin (member 1) (member 2 ∷ []) 1 [] 3 8 fresh unlocked (inl (ground arith))
      (ground arith) (ground arith)

generate_schedule_keeps_locked_example :
    HasWeek 7 8 locked_week
      (generate_schedule
        (λ _. "")
        7
        (8 * 86400)
        2
        (record { db = with_roster; faults = false ∷ true ∷ [] })).1.db
generate_schedule_keeps_locked_example =
    (generate_schedule_keeps_locked 7 8 locked_week (λ _. "") (8 * 86400) 2 refl).keep
      (record { db = with_roster; faults = false ∷ true ∷ [] }) refl

ordered : 691200 < 720000
ordered = ground arith

override_takes_over_example :
    (resp before : OnCallResponse) × ((resolve_on_call
        (λ _. "")
        night
        700000
        (healthy (with_override (λ _. "") night 1 691200 720000 none none with_roster ordered))).0
      ≡ ok resp)
    × ((resolve_on_call (λ _. "") night 700000 (healthy with_roster)).0 ≡ ok before)
    × (resp.source ≡ override)
    × (Option.map (λ p. p.user_id) resp.primary ≡ some 1)
    × (resp.secondary ≡ before.secondary)
override_takes_over_example =
    override_takes_over (λ _. "") night 1 691200 720000 none none with_roster ordered 700000 refl
      (ground arith) (ground arith)

override_elsewhere_example :
    (resolve_on_call
      (λ _. "")
      night
      720000
      (healthy (with_override (λ _. "") night 1 691200 720000 none none with_roster ordered))).0
    ≡ (resolve_on_call (λ _. "") night 720000 (healthy with_roster)).0
override_elsewhere_example =
    override_elsewhere (λ _. "") night 1 691200 720000 none none with_roster ordered 720000
      (inr (ground arith))

abbrev half_day : ℕ → Roster
half_day handoff = record night { is_follow_the_sun = true; handoff_time = some handoff }

abbrev minute_of : String → Option (ℕ → ℕ)
minute_of _ = some (λ at. at / 60 % 1440)

abbrev slot_at : ℕ → CoverageSlot
slot_at at = record { time = at; coverage = []; gap = ltb at 5000 }

abbrev none_yet : GapTracking
none_yet = record { in_gap = false; gap_start = 0; total_gap_minutes = 0; gaps = [] }

coverage_gaps_example :
    AreSlots slot_at 10000 1800 0 (cover slot_at 10000 1800 10000 0 none_yet).0
    × (total (finish_gaps 10000 (cover slot_at 10000 1800 10000 0 none_yet).1).gaps
        ≡ uncovered slot_at 10000 1800 0 (cover slot_at 10000 1800 10000 0 none_yet).0)
coverage_gaps_example = coverage_gaps slot_at 10000 1800 0 (ground arith)
