-- ===== src/Roster/Hours.antt =====
-- Whether a roster covers an instant (isRosterActiveAt, isInActiveHours and isInHandoffWindow of
-- pkg/roster/service.go). What `time.LoadLocation` knows of a timezone is a parameter: the minute
-- of the local day at an instant.
use nightowl.Base.{
  ℕ, ◌+◌, ◌-◌, ◌*◌, ◌%◌, ◌<◌, ◌≡◌, ◌↔◌, String, Bool, true, false, ◌&&◌, ◌||◌, not, Option, none,
  some, ltb, leb, if◌then◌else◌, arith,
}
use nightowl.Schema.{Roster}

unfoldable pub in_handoff_minutes : ℕ → ℕ → Bool
in_handoff_minutes handoff_min current_min =
    let shift_end = handoff_min + 12 * 60 in
    if leb (24 * 60) shift_end
    then leb handoff_min current_min || ltb current_min (shift_end - 24 * 60)
    else leb handoff_min current_min && ltb current_min shift_end

unfoldable pub in_active_minutes : ℕ → ℕ → ℕ → Bool
in_active_minutes start_min end_min current_min =
    if ltb start_min end_min
    then leb start_min current_min && ltb current_min end_min
    else leb start_min current_min || ltb current_min end_min

module _ (load_location : String → Option (ℕ → ℕ)) where
  abbrev handoff_window : Option (ℕ → ℕ) → Option ℕ → ℕ → Bool
  handoff_window none handoff at = false
  handoff_window (some local_minute) none at = false
  handoff_window (some local_minute) (some handoff) at =
      in_handoff_minutes handoff (local_minute at)

  unfoldable pub is_in_handoff_window : Roster → ℕ → Bool
  unfolding in_handoff_minutes
  is_in_handoff_window roster at =
      handoff_window (load_location roster.timezone) roster.handoff_time at

  abbrev active_window : Option (ℕ → ℕ) → Option ℕ → Option ℕ → ℕ → Bool
  active_window none start end at = false
  active_window (some local_minute) none end at = false
  active_window (some local_minute) (some start) none at = false
  active_window (some local_minute) (some start) (some end) at =
      in_active_minutes start end (local_minute at)

  abbrev hours_or_handoff : Roster → Option (Option ℕ) → Option (Option ℕ) → ℕ → Bool
  hours_or_handoff roster none end at = is_in_handoff_window roster at
  hours_or_handoff roster (some start) none at = is_in_handoff_window roster at
  hours_or_handoff roster (some start) (some end) at =
      active_window (load_location roster.timezone) start end at

  unfoldable pub is_in_active_hours : Roster → ℕ → Bool
  unfolding is_in_handoff_window in_active_minutes
  is_in_active_hours roster at =
      hours_or_handoff roster roster.active_hours_start roster.active_hours_end at

  unfoldable pub is_roster_active_at : Roster → ℕ → Bool
  unfolding is_in_active_hours
  is_roster_active_at roster at =
      if not roster.is_follow_the_sun then true else is_in_active_hours roster at

-- The handoff window is the twelve hours from the handoff on, around the clock.
in_handoff_minutes_lem :
    (handoff current : ℕ)
    → handoff < 1440
    → current < 1440
    → (in_handoff_minutes handoff current ≡ true) ↔ ((current + 1440 - handoff) % 1440 < 720)
unfolding in_handoff_minutes
in_handoff_minutes_lem handoff current h k = ground arith

-- The active hours run from the start to the end around the clock; equal times mean all day.
in_active_minutes_lem :
    (start end current : ℕ)
    → start < 1440
    → end < 1440
    → current < 1440
    → (in_active_minutes start end current ≡ true)
      ↔ ((current + 1440 - start) % 1440 < (end + 1440 - start - 1) % 1440 + 1)
unfolding in_active_minutes
in_active_minutes_lem start end current h k l = ground arith
