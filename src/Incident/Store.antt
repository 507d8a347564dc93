-- ===== src/Incident/Store.antt =====
-- The statements of the incident store (pkg/incident/store.go) that the service sends, by the text
-- of their SQL.
use nightowl.Base.{
  ℕ, suc, String, str_eq, Bool, false, ◌&&◌, ◌||◌, List, [], ◌∷◌, ◌++◌, Option, none, some, is_none,
  is_some_of, ◌==◌, find, update, count,
}
use nightowl.Sql.{Sql, SqlError, no_rows, Result, ok, err, statement, query, exec}
use nightowl.Schema.{Database, Incident, HistoryEntry, Runbook, Alert}
use nightowl.Roster.Store.{one_row}

-- CreateParams, and the fields of UpdateParams beside the row's id.
pub record IncidentParams : Type 0 where
  pub title : String
  pub fingerprints : List String
  pub severity : String
  pub category : Option String
  pub tags : List String
  pub services : List String
  pub clusters : List String
  pub namespaces : List String
  pub symptoms : Option String
  pub error_patterns : List String
  pub root_cause : Option String
  pub solution : Option String
  pub runbook_id : Option ℕ

unfoldable pub get_incident : ℕ → Sql Database SqlError Incident
get_incident id = query (λ db. one_row (find (λ i. i.id == id) db.incidents))

abbrev pub new_incident : IncidentParams → Option ℕ → ℕ → ℕ → Incident
new_incident p created_by id now = record {
  id = id;
  title = p.title;
  fingerprints = p.fingerprints;
  severity = p.severity;
  category = p.category;
  tags = p.tags;
  services = p.services;
  clusters = p.clusters;
  namespaces = p.namespaces;
  symptoms = p.symptoms;
  error_patterns = p.error_patterns;
  root_cause = p.root_cause;
  solution = p.solution;
  runbook_id = p.runbook_id;
  post_mortem_url = none;
  merged_into_id = none;
  created_by = created_by;
  created_at = now;
  updated_at = now;
}

unfoldable pub insert_incident : IncidentParams → Option ℕ → Sql Database SqlError Incident
insert_incident p created_by = statement λ db.
    let row = new_incident p created_by db.next_id db.now in
    (ok row, record db { next_id = suc db.next_id; incidents = db.incidents ++ row ∷ [] })

abbrev pub with_fields : IncidentParams → ℕ → Incident → Incident
with_fields p now i = record i {
  title = p.title;
  fingerprints = p.fingerprints;
  severity = p.severity;
  category = p.category;
  tags = p.tags;
  services = p.services;
  clusters = p.clusters;
  namespaces = p.namespaces;
  symptoms = p.symptoms;
  error_patterns = p.error_patterns;
  root_cause = p.root_cause;
  solution = p.solution;
  runbook_id = p.runbook_id;
  updated_at = now;
}

abbrev pub returning : Option Incident → Database → Database → Result SqlError Incident × Database
returning none old new = (err no_rows, old)
returning (some row) old new = (ok row, new)

-- `UPDATE incidents SET ... WHERE id = $1 RETURNING ...`
abbrev pub change_incident : ℕ → (ℕ → Incident → Incident) → Sql Database SqlError Incident
change_incident id f = statement λ db.
    let rows = update (λ i. i.id == id) (f db.now) db.incidents in
    returning (find (λ i. i.id == id) rows) db (record db { incidents = rows })

unfoldable pub update_incident_row : ℕ → IncidentParams → Sql Database SqlError Incident
update_incident_row id p = change_incident id (with_fields p)

unfoldable pub set_post_mortem_row : ℕ → String → Sql Database SqlError Incident
set_post_mortem_row id url =
    change_incident id (λ now i. record i { post_mortem_url = some url; updated_at = now })

abbrev pub is_live : ℕ → Incident → Bool
is_live id i = (i.id == id) && is_none i.merged_into_id

-- An `UPDATE` of the rows that are not merged yet; `RowsAffected() == 0` is answered by ErrNoRows.
abbrev pub merge_live : Option Incident → ℕ → ℕ → Database → Result SqlError (Unit {0}) × Database
merge_live none id target db = (err no_rows, db)
merge_live (some _) id target db = (
  ok tt,
  record db {
    incidents =
        update (is_live id) (λ i. record i { merged_into_id = some target; updated_at = db.now })
          db.incidents;
  },
)

abbrev pub set_merged : ℕ → ℕ → Database → Result SqlError (Unit {0}) × Database
set_merged id target db = merge_live (find (is_live id) db.incidents) id target db

unfoldable pub set_merged_into : ℕ → ℕ → Sql Database SqlError (Unit {0})
set_merged_into source target = statement (set_merged source target)

-- SoftDelete: an archived incident is merged into itself.
unfoldable pub soft_delete : ℕ → Sql Database SqlError (Unit {0})
soft_delete id = statement (set_merged id id)

unfoldable pub reassign_alerts : ℕ → ℕ → Sql Database SqlError ℕ
reassign_alerts source target = statement λ db.
    let refers : Alert → Bool = λ a. is_some_of a.matched_incident_id source in
    (
      ok (count refers db.alerts),
      record db {
        alerts =
            update refers (λ a. record a { matched_incident_id = some target; updated_at = db.now })
              db.alerts;
      },
    )

abbrev pub history_entry : ℕ → ℕ → ℕ → Option ℕ → String → List String → HistoryEntry
history_entry id now incident_id changed_by change_type diff = record {
  id = id;
  incident_id = incident_id;
  changed_by = changed_by;
  change_type = change_type;
  diff = diff;
  created_at = now;
}

unfoldable pub create_history :
    ℕ → Option ℕ → String → List String → Sql Database SqlError (Unit {0})
create_history incident_id changed_by change_type diff = exec λ db. record db {
  next_id = suc db.next_id;
  incident_history =
      db.incident_history
      ++ history_entry db.next_id db.now incident_id changed_by change_type diff ∷ [];
}

abbrev pub has_string : String → List String → Bool
has_string s [] = false
has_string s (x ∷ xs) = str_eq s x || has_string s xs

unfoldable pub get_by_fingerprint : String → Sql Database SqlError Incident
get_by_fingerprint fingerprint = query λ db.
    one_row
      (find (λ i. has_string fingerprint i.fingerprints && is_none i.merged_into_id) db.incidents)

unfoldable pub get_runbook_summary : ℕ → Sql Database SqlError Runbook
get_runbook_summary id = query (λ db. one_row (find (λ r. r.id == id) db.runbooks))
