-- ===== src/Tests/Data.antt =====
-- Sample rows, for the runs.
use nightowl.Base.{ℕ, String, true, false, List, [], ◌∷◌, Option, none, some}
use nightowl.Schema.{
  Database, Roster, Member, ScheduleRow, Alert, GroupingRule, Incident, Tier, EscalationPolicy,
  object,
}

abbrev pub empty : Database
empty = record {
  now = 1000;
  next_id = 100;
  users = [];
  alerts = [];
  alert_groups = [];
  grouping_rules = [];
  escalation_policies = [];
  escalation_events = [];
  incidents = [];
  incident_history = [];
  runbooks = [];
  rosters = [];
  roster_members = [];
  roster_schedule = [];
  roster_overrides = [];
  cache = [];
  published = [];
  message_mappings = [];
  posts = [];
  metrics = [];
  audit_log = [];
  buffer_full = [];
}

abbrev pub member : ℕ → Member
member user = record {
  id = user;
  roster_id = 7;
  user_id = user;
  is_active = true;
  joined_at = user;
  left_at = none;
}

abbrev pub night : Roster
night = record {
  id = 7;
  name = "night";
  description = none;
  timezone = "UTC";
  handoff_time = some 540;
  handoff_day = 1;
  schedule_weeks_ahead = 4;
  max_consecutive_weeks = 1;
  is_follow_the_sun = false;
  linked_roster_id = none;
  active_hours_start = none;
  active_hours_end = none;
  escalation_policy_id = none;
  end_date = none;
  is_active = true;
  created_at = 0;
  updated_at = 0;
}

abbrev pub locked_week : ScheduleRow
locked_week = record {
  id = 30;
  roster_id = 7;
  week_start = 8;
  week_end = 15;
  primary_user_id = some 2;
  secondary_user_id = none;
  is_locked = true;
  generated = false;
  notes = none;
  created_at = 0;
  updated_at = 0;
}

abbrev pub with_roster : Database
with_roster = record empty {
  users = record { id = 1; display_name = "Ada" } ∷ record { id = 2; display_name = "Bo" } ∷ [];
  rosters = night ∷ [];
  roster_members = member 1 ∷ member 2 ∷ [];
  roster_schedule = locked_week ∷ [];
}

abbrev pub alert_with : ℕ → String → Option ℕ → Option ℕ → Alert
alert_with id status policy tier = record {
  id = id;
  fingerprint = "fp";
  status = status;
  severity = "major";
  source = "keep";
  title = "disk full";
  description = none;
  labels = object (("host", "db1") ∷ []);
  annotations = object [];
  service_id = none;
  matched_incident_id = some 2;
  suggested_solution = none;
  acknowledged_by = none;
  acknowledged_at = none;
  resolved_by = none;
  resolved_at = none;
  resolved_by_agent = false;
  agent_resolution_notes = none;
  occurrence_count = 1;
  first_fired_at = 0;
  last_fired_at = 0;
  escalation_policy_id = policy;
  current_escalation_tier = tier;
  alert_group_id = none;
  created_at = 0;
  updated_at = 0;
}

abbrev pub tier : ℕ → ℕ → Tier
tier number minutes = record {
  tier = number;
  timeout_minutes = minutes;
  notify_via = "slack" ∷ [];
  targets = [];
}

abbrev pub tiers : List Tier
tiers = tier 1 5 ∷ tier 2 10 ∷ []

abbrev pub policy_with : Option ℕ → EscalationPolicy
policy_with repeat_count = record {
  id = 9;
  name = "standard";
  description = none;
  tiers = some tiers;
  repeat_count = repeat_count;
  created_at = 0;
  updated_at = 0;
}

abbrev pub incident_with : ℕ → List String → Option ℕ → Incident
incident_with id fingerprints merged_into = record {
  id = id;
  title = "disk full";
  fingerprints = fingerprints;
  severity = "warning";
  category = none;
  tags = [];
  services = [];
  clusters = [];
  namespaces = [];
  symptoms = none;
  error_patterns = [];
  root_cause = none;
  solution = some "grow the volume";
  runbook_id = none;
  post_mortem_url = none;
  merged_into_id = merged_into;
  created_by = none;
  created_at = 0;
  updated_at = 0;
}

abbrev pub rule : GroupingRule
rule = record {
  id = 50;
  name = "by host";
  description = none;
  position = 0;
  is_enabled = true;
  matchers = some (record { key = "host"; op = "!="; value = "" } ∷ []);
  group_by = "host" ∷ [];
  created_at = 0;
  updated_at = 0;
}
