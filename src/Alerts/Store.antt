-- ===== src/Alerts/Store.antt =====
-- The statements on alerts (sqlc/queries/alerts/alerts.sql, pkg/alert/store.go).
use nightowl.Base.{
  ℕ, suc, ◌+◌, String, str_eq, Bool, true, false, ◌&&◌, not, List, [], ◌∷◌, ◌++◌, Option, none,
  some, ltb, ◌==◌, if◌then◌else◌, find, select, update,
}
use nightowl.Sql.{Sql, SqlError, no_rows, Result, ok, err, statement, query, exec}
use nightowl.Schema.{Database, Alert, AuditEntry}
use nightowl.Roster.Store.{one_row}
use nightowl.Alerts.Normalize.{NormalizedAlert, ensure_json}

abbrev pub later : Alert → Option Alert → Option Alert
later a none = some a
later a (some b) = if ltb a.last_fired_at b.last_fired_at then some b else some a

-- The alert with the latest firing, the first of those that fired together.
abbrev pub latest : List Alert → Option Alert
latest [] = none
latest (a ∷ rest) = later a (latest rest)

abbrev pub is_open_with : String → Alert → Bool
is_open_with fingerprint a = str_eq a.fingerprint fingerprint && not (str_eq a.status "resolved")

unfoldable pub get_alert : ℕ → Sql Database SqlError Alert
get_alert id = query (λ db. one_row (find (λ a. a.id == id) db.alerts))

unfoldable pub get_alert_by_fingerprint : String → Sql Database SqlError Alert
get_alert_by_fingerprint fingerprint =
    query (λ db. one_row (latest (select (is_open_with fingerprint) db.alerts)))

-- The columns that CreateAlert leaves out have the table's defaults.
abbrev pub new_alert : NormalizedAlert → ℕ → ℕ → Alert
new_alert a id now = record {
  id = id;
  fingerprint = a.fingerprint;
  status = a.status;
  severity = a.severity;
  source = a.source;
  title = a.title;
  description = a.description;
  labels = ensure_json a.labels;
  annotations = ensure_json a.annotations;
  service_id = none;
  matched_incident_id = none;
  suggested_solution = none;
  acknowledged_by = none;
  acknowledged_at = none;
  resolved_by = none;
  resolved_at = none;
  resolved_by_agent = false;
  agent_resolution_notes = none;
  occurrence_count = 1;
  first_fired_at = now;
  last_fired_at = now;
  escalation_policy_id = none;
  current_escalation_tier = some 0;
  alert_group_id = none;
  created_at = now;
  updated_at = now;
}

unfoldable pub create_alert : NormalizedAlert → Sql Database SqlError Alert
create_alert a = statement λ db.
    let row = new_alert a db.next_id db.now in
    (ok row, record db { next_id = suc db.next_id; alerts = db.alerts ++ row ∷ [] })

unfoldable pub increment_alert_occurrence : ℕ → Sql Database SqlError (Unit {0})
increment_alert_occurrence id = exec λ db. record db {
  alerts =
      update (λ a. a.id == id)
        (λ a. record a {
          occurrence_count = a.occurrence_count + 1;
          last_fired_at = db.now;
          updated_at = db.now;
        })
        db.alerts;
}

abbrev pub returning_alert :
    Option Alert → (Alert → Alert) → Database → Database → Result SqlError Alert × Database
returning_alert none f old new = (err no_rows, old)
returning_alert (some a) f old new = (ok (f a), new)

-- `UPDATE alerts SET ... WHERE ... RETURNING *`: every row that passes the test is changed, and the
-- first of them is returned.
abbrev pub change_alerts : (Alert → Bool) → (ℕ → Alert → Alert) → Sql Database SqlError Alert
change_alerts p f = statement λ db.
    returning_alert (find p db.alerts) (f db.now) db
      (record db { alerts = update p (f db.now) db.alerts })

unfoldable pub acknowledge_alert : ℕ → Option ℕ → Sql Database SqlError Alert
acknowledge_alert id user =
    change_alerts (λ a. a.id == id)
      λ now a. record a {
        status = "acknowledged";
        acknowledged_by = user;
        acknowledged_at = some now;
        updated_at = now;
      }

unfoldable pub resolve_alert : ℕ → Option ℕ → Sql Database SqlError Alert
resolve_alert id user =
    change_alerts (λ a. a.id == id)
      λ now a. record a {
        status = "resolved";
        resolved_by = user;
        resolved_at = some now;
        updated_at = now;
      }

unfoldable pub resolve_alert_by_fingerprint : String → Sql Database SqlError Alert
resolve_alert_by_fingerprint fingerprint =
    change_alerts (is_open_with fingerprint)
      λ now a. record a { status = "resolved"; resolved_at = some now; updated_at = now }

unfoldable pub resolve_alert_by_agent : ℕ → String → Sql Database SqlError Alert
resolve_alert_by_agent id notes =
    change_alerts (λ a. a.id == id)
      λ now a. record a {
        status = "resolved";
        resolved_at = some now;
        resolved_by_agent = true;
        agent_resolution_notes = some notes;
        updated_at = now;
      }

-- Log drops the entry where the buffer of the writer is full.
abbrev pub accepted : List Bool → AuditEntry → List AuditEntry
accepted [] entry = entry ∷ []
accepted (true ∷ rest) entry = []
accepted (false ∷ rest) entry = entry ∷ []

abbrev pub later_calls : List Bool → List Bool
later_calls [] = []
later_calls (full ∷ rest) = rest

-- audit.LogFromRequest
abbrev pub with_audit : String → String → ℕ → Database → Database
with_audit action resource id db = record db {
  audit_log =
      db.audit_log
      ++ accepted db.buffer_full
          (record { action = action; resource = resource; resource_id = id });
  buffer_full = later_calls db.buffer_full;
}
