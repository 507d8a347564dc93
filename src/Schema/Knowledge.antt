-- ===== src/Schema/Knowledge.antt =====
-- The rows of `incidents`, `incident_history` and `runbooks` (sqlc/schema/tenant.sql).
use nightowl.Base.{ℕ, String, List, Option}

-- IncidentRow of pkg/incident/incident.go, less the columns of resolution statistics, which the
-- package only copies.
pub record Incident : Type 0 where
  pub id : ℕ
  pub title : String
  pub fingerprints : List String
  pub severity : String
  pub category : Option String
  pub tags : List String
  pub services : List String
  pub clusters : List String
  pub namespaces : List String
  pub symptoms : Option String
  pub error_patterns : List String
  pub root_cause : Option String
  pub solution : Option String
  pub runbook_id : Option ℕ
  pub post_mortem_url : Option String
  pub merged_into_id : Option ℕ
  pub created_by : Option ℕ
  pub created_at : ℕ
  pub updated_at : ℕ

-- `diff` is the list of the keys of the JSON object.
pub record HistoryEntry : Type 0 where
  pub id : ℕ
  pub incident_id : ℕ
  pub changed_by : Option ℕ
  pub change_type : String
  pub diff : List String
  pub created_at : ℕ

pub record Runbook : Type 0 where
  pub id : ℕ
  pub title : String
  pub content : String
