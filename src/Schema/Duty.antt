-- ===== src/Schema/Duty.antt =====
-- The rows of `users`, `rosters`, `roster_members`, `roster_schedule` and `roster_overrides`
-- (sqlc/schema/tenant.sql), with the columns that pkg/roster reads.
use nightowl.Base.{ℕ, String, Bool, Option}

pub record User : Type 0 where
  pub id : ℕ
  pub display_name : String

-- RosterResponse. A time of day `HH:MM` is its number of minutes, `none` if the text does not
-- parse; `max_consecutive_weeks` is 0 also for a negative value, which the code treats alike.
pub record Roster : Type 0 where
  pub id : ℕ
  pub name : String
  pub description : Option String
  pub timezone : String
  pub handoff_time : Option ℕ
  pub handoff_day : ℕ
  pub schedule_weeks_ahead : ℕ
  pub max_consecutive_weeks : ℕ
  pub is_follow_the_sun : Bool
  pub linked_roster_id : Option ℕ
  pub active_hours_start : Option (Option ℕ)
  pub active_hours_end : Option (Option ℕ)
  pub escalation_policy_id : Option ℕ
  pub end_date : Option ℕ
  pub is_active : Bool
  pub created_at : ℕ
  pub updated_at : ℕ

pub record Member : Type 0 where
  pub id : ℕ
  pub roster_id : ℕ
  pub user_id : ℕ
  pub is_active : Bool
  pub joined_at : ℕ
  pub left_at : Option ℕ

-- `week_start` and `week_end` are dates.
pub record ScheduleRow : Type 0 where
  pub id : ℕ
  pub roster_id : ℕ
  pub week_start : ℕ
  pub week_end : ℕ
  pub primary_user_id : Option ℕ
  pub secondary_user_id : Option ℕ
  pub is_locked : Bool
  pub generated : Bool
  pub notes : Option String
  pub created_at : ℕ
  pub updated_at : ℕ

pub record Override : Type 0 where
  pub id : ℕ
  pub roster_id : ℕ
  pub user_id : ℕ
  pub start_at : ℕ
  pub end_at : ℕ
  pub reason : Option String
  pub created_by : Option ℕ
  pub created_at : ℕ
