-- ===== src/Roster/Generate.antt =====
-- Generation of the schedule (GenerateSchedule and alignToHandoffDay of pkg/roster/scheduler.go).
pub mod Plan
pub mod Refines
pub mod Runs
pub mod Balance
pub mod Duties
pub mod Locked
use nightowl.Base.{
  ℕ, zero, suc, ◌+◌, ◌-◌, ◌*◌, ◌%◌, String, Bool, true, false, ◌&&◌, List, [], ◌∷◌, Option, none,
  some, ltb, ◌==◌, if◌then◌else◌, is_some_of, find, length,
}
use nightowl.Sql.{Sql, SqlError, Result, ok, err, pure, ◌>>=◌, attempt, wrap}
use nightowl.Schema.{Database, Roster, Member, ScheduleRow}
use nightowl.Roster.Pick.{Counts, increment, pick_primary, pick_secondary}
use nightowl.Roster.Store.{
  ScheduleEntry, WeekPlan, date_of, get_roster, list_active_members, list_schedule,
  get_schedule_week, count_primary_weeks_before, count_secondary_weeks_before,
}
use nightowl.Roster.Weeks.{upsert_schedule_week}

-- The most recent day `handoff_day` (0 is Sunday) on or before the date. Day 0 is a Sunday.
unfoldable pub align_to_handoff_day : ℕ → ℕ → ℕ
align_to_handoff_day date handoff_day =
    let current = date % 7 in
    if ltb current handoff_day
    then date + handoff_day - (current + 7)
    else date - (current - handoff_day)

pub data GenerateError : Type 0 where
  getting_roster listing_members listing_existing upserting_week : SqlError → GenerateError

-- What the loop over the weeks carries: the duty counts, and the last primary with the number of
-- weeks served in a row.
pub record Tracking : Type 0 where
  pub primary_count : Counts
  pub secondary_count : Counts
  pub last_primary : Option ℕ
  pub consecutive_count : ℕ

abbrev pub result_or {ℓ κ} : {E : Type ℓ} {A : Type κ} → Result E A → A → A
result_or (ok a) default = a
result_or (err e) default = default

abbrev pub assign : Counts → ℕ → ℕ → Counts
assign counts user n other = if other == user then n else counts other

-- The duty counts from before the window; a count that cannot be read is 0.
unfoldable pub load_counts :
    ℕ → ℕ → List Member → Counts → Counts → Sql Database GenerateError (Counts × Counts)
load_counts roster_id week_start [] primary secondary = pure (primary, secondary)
load_counts roster_id week_start (m ∷ ms) primary secondary = do
  pc ← attempt (count_primary_weeks_before roster_id m.user_id week_start)
  sc ← attempt (count_secondary_weeks_before roster_id m.user_id week_start)
  load_counts roster_id week_start ms (assign primary m.user_id (result_or pc 0))
      (assign secondary m.user_id (result_or sc 0))

abbrev pub entry_primary : Option ScheduleEntry → Option ℕ
entry_primary none = none
entry_primary (some e) = e.primary_user_id

-- The loop `for i := 2; i <= MaxConsecutiveWeeks; i++`, on the rounds left.
unfoldable pub look_back : ℕ → ℕ → ℕ → ℕ → ℕ → ℕ → Sql Database GenerateError ℕ
look_back roster_id week_start last zero i consecutive = pure consecutive
look_back roster_id week_start last (suc rounds) i consecutive = do
  pe ← attempt (get_schedule_week roster_id (week_start - 7 * i))
  (if is_some_of (entry_primary (result_or pe none)) last
      then look_back roster_id week_start last rounds (i + 1) (consecutive + 1)
      else pure consecutive)

abbrev pub seed_from : ℕ → ℕ → ℕ → Option ℕ → Sql Database GenerateError (Option ℕ × ℕ)
seed_from roster_id week_start limit none = pure (none, 0)
seed_from roster_id week_start limit (some last) = do
  consecutive ← look_back roster_id week_start last (limit - 1) 2 1
  pure (some last, consecutive)

-- The weeks before the window: the last primary, and for how many weeks in a row.
unfoldable pub seed_consecutive : ℕ → ℕ → ℕ → Sql Database GenerateError (Option ℕ × ℕ)
seed_consecutive roster_id week_start limit = do
  prev ← attempt (get_schedule_week roster_id (week_start - 7))
  seed_from roster_id week_start limit (entry_primary (result_or prev none))

-- Consecutive counting, for a locked week and for a new one.
unfoldable pub track_primary : Option ℕ → Tracking → Tracking
track_primary none t = t
track_primary (some user) t =
    if is_some_of t.last_primary user
    then record t { consecutive_count = t.consecutive_count + 1 }
    else record t { last_primary = some user; consecutive_count = 1 }

abbrev pub increment_option : Counts → Option ℕ → Counts
increment_option counts none = counts
increment_option counts (some user) = increment counts user

-- "Update tracking."
unfoldable pub track_week : Option ℕ → Option ℕ → Tracking → Tracking
unfolding track_primary increment
track_week primary secondary t =
    let t' = track_primary primary t in
    record t' {
      primary_count = increment_option t.primary_count primary;
      secondary_count = increment_option t.secondary_count secondary;
    }

-- `if len(members) > 1 && primary != nil`
abbrev pub choose_secondary : List Member → Tracking → Option ℕ → Option ℕ
choose_secondary members t none = none
choose_secondary members t (some primary) =
    if ltb 1 (length members)
    then pick_secondary members t.primary_count t.secondary_count primary
    else none

abbrev pub choose_primary : List Member → ℕ → Tracking → Option ℕ
choose_primary members limit t =
    pick_primary members t.primary_count t.last_primary t.consecutive_count limit

abbrev pub generated_week : ℕ → Option ℕ → Option ℕ → WeekPlan
generated_week week_start primary secondary = record {
  week_start = week_start;
  week_end = week_start + 7;
  primary_uid = primary;
  secondary_uid = secondary;
  is_locked = false;
  generated = true;
  notes = none;
}

-- existingMap[wsKey], if it is locked.
abbrev pub keep_locked : Option ScheduleEntry → Option ScheduleEntry
keep_locked none = none
keep_locked (some e) = if e.is_locked then some e else none

unfoldable pub locked_entry : List ScheduleEntry → ℕ → Option ScheduleEntry
locked_entry existing week_start = keep_locked (find (λ e. e.week_start == week_start) existing)

module _ (uuid_text : ℕ → String) (roster_id : ℕ) (members : List Member) (limit : ℕ) where
  -- One round of the loop: a locked week is kept, any other is picked and stored.
  unfoldable pub generate_week :
      Option ScheduleEntry → ℕ → Tracking → Sql Database GenerateError (ScheduleEntry × Tracking)
  generate_week (some e) week_start t = pure (e, track_primary e.primary_user_id t)
  generate_week none week_start t = do
    let primary = choose_primary members limit t
    let secondary = choose_secondary members t primary
    entry ←
        wrap upserting_week
          (upsert_schedule_week uuid_text roster_id (generated_week week_start primary secondary))
    pure (entry, track_week primary secondary t)

  unfoldable pub generate_weeks :
      List ScheduleEntry → ℕ → ℕ → Tracking → Sql Database GenerateError (List ScheduleEntry)
  generate_weeks existing zero week_start t = pure []
  generate_weeks existing (suc weeks) week_start t = do
    made ← generate_week (locked_entry existing week_start) week_start t
    rest ← generate_weeks existing weeks (week_start + 7) made.1
    pure (made.0 ∷ rest)

  -- GenerateSchedule from the count of duties on; `week_start` is aligned.
  unfoldable pub generate_window : ℕ → ℕ → Sql Database GenerateError (List ScheduleEntry)
  generate_window week_start weeks = do
    counts ← load_counts roster_id week_start members (λ _. 0) (λ _. 0)
    existing ← wrap listing_existing (list_schedule roster_id week_start (week_start + weeks * 7))
    seed ← seed_consecutive roster_id week_start limit
    generate_weeks existing weeks week_start (record {
      primary_count = counts.0;
      secondary_count = counts.1;
      last_primary = seed.0;
      consecutive_count = seed.1;
    })

-- A roster with no active member has no schedule to generate.
abbrev pub generate_for :
    (ℕ → String)
    → ℕ
    → Roster
    → ℕ
    → ℕ
    → List Member
    → Sql Database GenerateError (List ScheduleEntry)
generate_for uuid_text roster_id roster from weeks [] = pure []
generate_for uuid_text roster_id roster from weeks (m ∷ ms) =
    generate_window uuid_text roster_id (m ∷ ms) roster.max_consecutive_weeks
      (align_to_handoff_day (date_of from) roster.handoff_day) weeks

unfoldable pub generate_schedule :
    (ℕ → String) → ℕ → ℕ → ℕ → Sql Database GenerateError (List ScheduleEntry)
generate_schedule uuid_text roster_id from weeks = do
  roster ← wrap getting_roster (get_roster roster_id)
  members ← wrap listing_members (list_active_members roster_id)
  generate_for uuid_text roster_id roster from weeks members
