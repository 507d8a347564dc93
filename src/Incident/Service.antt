-- ===== src/Incident/Service.antt =====
-- The operations of the incident service (pkg/incident/service.go). A failure to write the history
-- is logged and ignored, as is a linked runbook that cannot be read.
use nightowl.Base.{
  ℕ, String, str_eq, List, [], ◌∷◌, Option, none, some, is_none, ◌==◌, if◌then◌else◌,
}
use nightowl.Sql.{Sql, SqlError, Result, ok, err, pure, raise, ◌>>=◌, ◌>>◌, attempt, wrap}
use nightowl.Schema.{Database, Incident, Runbook}
use nightowl.Incident.Fields.{union_slice, best_text, best_severity, best_uuid, compute_diff}
use nightowl.Incident.Store.{
  IncidentParams, get_incident, insert_incident, update_incident_row, set_post_mortem_row,
  set_merged_into, soft_delete, reassign_alerts, create_history, get_runbook_summary,
}

pub data IncidentError : Type 0 where
  parsing_runbook_id into_itself target_merged source_merged : IncidentError
  creating getting updating archiving getting_target getting_source updating_target marking_source
        setting_url :
      SqlError → IncidentError

-- CreateRequest and UpdateRequest: the fields, and the runbook's id as a text.
pub record IncidentRequest : Type 0 where
  pub fields : IncidentParams
  pub runbook_text : Option String

-- The row, with the title and content of its runbook.
pub record IncidentResponse : Type 0 where
  pub row : Incident
  pub runbook : Option Runbook

abbrev pub found_runbook : Result SqlError Runbook → Option Runbook
found_runbook (ok rb) = some rb
found_runbook (err e) = none

abbrev pub runbook_of : Option ℕ → Sql Database IncidentError (Option Runbook)
runbook_of none = pure none
runbook_of (some id) = do r ← attempt (get_runbook_summary id); pure (found_runbook r)

-- ToResponse and enrichRunbook
unfoldable pub respond : Incident → Sql Database IncidentError IncidentResponse
respond row = do runbook ← runbook_of row.runbook_id; pure (record { row = row; runbook = runbook })

-- A history entry whose failure is ignored.
unfoldable pub record_history :
    ℕ → Option ℕ → String → List String → Sql Database IncidentError (Unit {0})
record_history id user change_type diff = do
  done ← attempt (create_history id user change_type diff)
  pure tt

-- `if len(diff) > 0`
unfoldable pub record_diff : ℕ → Option ℕ → List String → Sql Database IncidentError (Unit {0})
record_diff id user [] = pure tt
record_diff id user (key ∷ keys) = record_history id user "updated" (key ∷ keys)

-- What Merge writes to the target.
unfoldable pub merged_fields : Incident → Incident → IncidentParams
merged_fields target source = record {
  title = target.title;
  fingerprints = union_slice target.fingerprints source.fingerprints;
  severity = best_severity target.severity source.severity;
  category = target.category;
  tags = union_slice target.tags source.tags;
  services = union_slice target.services source.services;
  clusters = union_slice target.clusters source.clusters;
  namespaces = union_slice target.namespaces source.namespaces;
  symptoms = best_text target.symptoms source.symptoms;
  error_patterns = union_slice target.error_patterns source.error_patterns;
  root_cause = best_text target.root_cause source.root_cause;
  solution = best_text target.solution source.solution;
  runbook_id = best_uuid target.runbook_id source.runbook_id;
}

-- `parse` is uuid.Parse.
module _ (parse : String → Option ℕ) where
  -- ParseUUIDPtr
  unfoldable pub parse_uuid_ptr : Option String → Sql Database IncidentError (Option ℕ)
  parse_uuid_ptr none = pure none
  parse_uuid_ptr (some s) =
      if str_eq s ""
      then pure none
      else elim (parse s) [ none ↦ raise parsing_runbook_id | some id ↦ pure (some id) ]

  unfoldable pub create : IncidentRequest → Option ℕ → Sql Database IncidentError IncidentResponse
  create request user = do
    runbook_id ← parse_uuid_ptr request.runbook_text
    row ← wrap creating (insert_incident (record request.fields { runbook_id = runbook_id }) user)
    record_history row.id user "created" ("title" ∷ "severity" ∷ [])
    respond row

  unfoldable pub update_incident :
      ℕ → IncidentRequest → Option ℕ → Sql Database IncidentError IncidentResponse
  update_incident id request user = do
    old ← wrap getting (get_incident id)
    runbook_id ← parse_uuid_ptr request.runbook_text
    updated ←
        wrap updating (update_incident_row id (record request.fields { runbook_id = runbook_id }))
    record_diff id user (compute_diff old updated)
    respond updated

-- Delete
unfoldable pub archive : ℕ → Option ℕ → Sql Database IncidentError (Unit {0})
archive id user = do
  wrap archiving (soft_delete id)
  record_history id user "archived" ("archived" ∷ [])

unfoldable pub set_post_mortem_url :
    ℕ → String → Option ℕ → Sql Database IncidentError IncidentResponse
set_post_mortem_url id url user = do
  old ← wrap getting (get_incident id)
  updated ← wrap setting_url (set_post_mortem_row id url)
  record_diff id user (compute_diff old updated)
  respond updated

-- The writes of Merge, once both incidents are found and are not merged.
unfoldable pub merge_rows :
    Incident → Incident → ℕ → ℕ → Option ℕ → Sql Database IncidentError IncidentResponse
merge_rows target source target_id source_id user = do
  updated ← wrap updating_target (update_incident_row target_id (merged_fields target source))
  wrap marking_source (set_merged_into source_id target_id)
  reassigned ← attempt (reassign_alerts source_id target_id)
  record_history target_id user "merged"
      ("merged_source_id" ∷ "reassigned_alerts" ∷ "added_fingerprints" ∷ [])
  record_history source_id user "merged" ("merged_into_id" ∷ [])
  respond updated

-- The rest of Merge, once the target is found and is not merged.
unfoldable pub merge_source :
    Incident → ℕ → ℕ → Option ℕ → Sql Database IncidentError IncidentResponse
merge_source target target_id source_id user = do
  source ← wrap getting_source (get_incident source_id)
  if is_none source.merged_into_id
      then merge_rows target source target_id source_id user
      else raise source_merged

unfoldable pub merge_target : ℕ → ℕ → Option ℕ → Sql Database IncidentError IncidentResponse
merge_target target_id source_id user = do
  target ← wrap getting_target (get_incident target_id)
  if is_none target.merged_into_id
      then merge_source target target_id source_id user
      else raise target_merged

unfoldable pub merge : ℕ → ℕ → Option ℕ → Sql Database IncidentError IncidentResponse
unfolding merge_target
merge target_id source_id user =
    if target_id == source_id then raise into_itself else merge_target target_id source_id user
