-- ===== src/Schema/Alerting.antt =====
-- The rows of `alerts`, `alert_groups`, `alert_grouping_rules`, `escalation_policies` and
-- `escalation_events` (sqlc/schema/tenant.sql).
use nightowl.Base.{ℕ, String, Bool, List, Option}

-- map[string]string
abbrev pub LabelMap : Type 0
LabelMap = List (String × String)

-- A JSON column or message: no bytes at all, the literal `null`, an object whose values are
-- strings, or any other text.
pub data RawJson : Type 0 where
  no_bytes null : RawJson
  object : LabelMap → RawJson
  other : String → RawJson

pub record Matcher : Type 0 where
  pub key : String
  pub op : String
  pub value : String

pub record Alert : Type 0 where
  pub id : ℕ
  pub fingerprint : String
  pub status : String
  pub severity : String
  pub source : String
  pub title : String
  pub description : Option String
  pub labels : RawJson
  pub annotations : RawJson
  pub service_id : Option ℕ
  pub matched_incident_id : Option ℕ
  pub suggested_solution : Option String
  pub acknowledged_by : Option ℕ
  pub acknowledged_at : Option ℕ
  pub resolved_by : Option ℕ
  pub resolved_at : Option ℕ
  pub resolved_by_agent : Bool
  pub agent_resolution_notes : Option String
  pub occurrence_count : ℕ
  pub first_fired_at : ℕ
  pub last_fired_at : ℕ
  pub escalation_policy_id : Option ℕ
  pub current_escalation_tier : Option ℕ
  pub alert_group_id : Option ℕ
  pub created_at : ℕ
  pub updated_at : ℕ

pub record AlertGroup : Type 0 where
  pub id : ℕ
  pub rule_id : ℕ
  pub group_key_hash : String
  pub group_key_labels : LabelMap
  pub status : String
  pub title : String
  pub alert_count : ℕ
  pub max_severity : String
  pub first_alert_at : ℕ
  pub last_alert_at : ℕ
  pub created_at : ℕ
  pub updated_at : ℕ

-- `matchers` is the JSON column as it decodes, `none` if it does not.
pub record GroupingRule : Type 0 where
  pub id : ℕ
  pub name : String
  pub description : Option String
  pub position : ℕ
  pub is_enabled : Bool
  pub matchers : Option (List Matcher)
  pub group_by : List String
  pub created_at : ℕ
  pub updated_at : ℕ

-- `tier` and `timeout_minutes` are Go ints that nothing checks: words of 64 bits.
pub record Tier : Type 0 where
  pub tier : ℕ
  pub timeout_minutes : ℕ
  pub notify_via : List String
  pub targets : List String

-- `tiers` is the JSON column as it decodes, `none` if it does not; `repeat_count` is a word of 32
-- bits.
pub record EscalationPolicy : Type 0 where
  pub id : ℕ
  pub name : String
  pub description : Option String
  pub tiers : Option (List Tier)
  pub repeat_count : Option ℕ
  pub created_at : ℕ
  pub updated_at : ℕ

pub record EscalationEvent : Type 0 where
  pub id : ℕ
  pub alert_id : ℕ
  pub policy_id : ℕ
  pub tier : ℕ
  pub action : String
  pub notify_method : Option String
  pub created_at : ℕ
