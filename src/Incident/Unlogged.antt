-- ===== src/Incident/Unlogged.antt =====
-- The operations of the incident service (pkg/incident/service.go) leave the audit log alone.
use nightowl.Base.{ℕ, String, Bool, List, [], ◌∷◌, Option, none, some, ◌≡◌}
use nightowl.Sql.{Sql, raise, pure}
use nightowl.Sql.Preserves.{
  Preserves, preserves_rules, statement-Preserves, exec-Preserves, bind-Preserves,
  attempt-Preserves, if-Preserves, pure-Preserves,
}
use nightowl.Schema.{Database, Incident, AuditEntry}
use nightowl.Incident.Store.{
  IncidentParams, get_incident, insert_incident, update_incident_row, set_post_mortem_row,
  set_merged_into, soft_delete, reassign_alerts, create_history, get_runbook_summary, returning,
  merge_live,
}
use nightowl.Incident.Service.{
  IncidentError, parsing_runbook_id, IncidentRequest, create, update_incident, archive, merge,
  merge_rows, merge_source, merge_target, set_post_mortem_url, respond, runbook_of, record_history,
  record_diff, parse_uuid_ptr,
}

-- What the audit writer has accepted, and which coming calls of Log find its buffer full.
abbrev pub trail : Database → List AuditEntry × List Bool
trail db = (db.audit_log, db.buffer_full)

module _ (log : List AuditEntry × List Bool) where
  -- Nothing was given to the audit writer.
  abbrev pub Unlogged : Database → Type 0
  Unlogged db = trail db ≡ log

  returning-Unlogged :
      (o : Option Incident) (old new : Database)
      → Unlogged old
      → Unlogged new
      → Unlogged (returning o old new).1
  returning-Unlogged none old new h k = h
  returning-Unlogged (some row) old new h k = k

  live-Unlogged :
      (o : Option Incident) (id target : ℕ) (db : Database)
      → Unlogged db
      → Unlogged (merge_live o id target db).1
  live-Unlogged none id target db h = h
  live-Unlogged (some row) id target db h = h

  get-Unlogged : (id : ℕ) → Preserves Unlogged (get_incident id)
  unfolding get_incident
  get-Unlogged id = search preserves_rules

  insert-Unlogged :
      (p : IncidentParams) (user : Option ℕ) → Preserves Unlogged (insert_incident p user)
  unfolding insert_incident
  insert-Unlogged p user = statement-Preserves _ (λ db h. h)

  update-Unlogged : (id : ℕ) (p : IncidentParams) → Preserves Unlogged (update_incident_row id p)
  unfolding update_incident_row
  update-Unlogged id p = statement-Preserves _ (λ db h. returning-Unlogged _ db _ h h)

  url-Unlogged : (id : ℕ) (url : String) → Preserves Unlogged (set_post_mortem_row id url)
  unfolding set_post_mortem_row
  url-Unlogged id url = statement-Preserves _ (λ db h. returning-Unlogged _ db _ h h)

  mark-Unlogged : (source target : ℕ) → Preserves Unlogged (set_merged_into source target)
  unfolding set_merged_into
  mark-Unlogged source target = statement-Preserves _ (λ db h. live-Unlogged _ source target db h)

  delete-Unlogged : (id : ℕ) → Preserves Unlogged (soft_delete id)
  unfolding soft_delete
  delete-Unlogged id = statement-Preserves _ (λ db h. live-Unlogged _ id id db h)

  reassign-Unlogged : (source target : ℕ) → Preserves Unlogged (reassign_alerts source target)
  unfolding reassign_alerts
  reassign-Unlogged source target = statement-Preserves _ (λ db h. h)

  history-Unlogged :
      (id : ℕ) (user : Option ℕ) (change_type : String) (diff : List String)
      → Preserves Unlogged (record_history id user change_type diff)
  unfolding record_history create_history
  history-Unlogged id user change_type diff =
      bind-Preserves _ _ (attempt-Preserves _ (exec-Preserves _ (λ db h. h)))
        (λ r. search preserves_rules)

  diff-Unlogged :
      (id : ℕ) (user : Option ℕ) (diff : List String)
      → Preserves Unlogged (record_diff id user diff)
  unfolding record_diff
  diff-Unlogged id user [] = search preserves_rules
  diff-Unlogged id user (key ∷ keys) = history-Unlogged id user "updated" (key ∷ keys)

  runbook_of-Unlogged : (id : Option ℕ) → Preserves Unlogged (runbook_of id)
  unfolding get_runbook_summary
  runbook_of-Unlogged none = search preserves_rules
  runbook_of-Unlogged (some id) = search preserves_rules

  respond-Unlogged : (row : Incident) → Preserves Unlogged (respond row)
  unfolding respond
  respond-Unlogged row = search (preserves_rules, runbook_of-Unlogged)

  ruleset unlogged_rules = (
    preserves_rules, get-Unlogged, insert-Unlogged, update-Unlogged, url-Unlogged, mark-Unlogged,
    delete-Unlogged, reassign-Unlogged, history-Unlogged, diff-Unlogged, respond-Unlogged,
  )

  parsed-Unlogged :
      (id : Option ℕ)
      → Preserves Unlogged (elim id as (λ _. Sql Database IncidentError (Option ℕ)) [
        | none ↦ raise parsing_runbook_id
        | some id ↦ pure (some id)
      ])
  parsed-Unlogged none = search preserves_rules
  parsed-Unlogged (some id) = search preserves_rules

  uuid-Unlogged :
      (parse : String → Option ℕ) (text : Option String)
      → Preserves Unlogged (parse_uuid_ptr parse text)
  unfolding parse_uuid_ptr
  uuid-Unlogged parse none = search preserves_rules
  uuid-Unlogged parse (some s) =
      if-Preserves _ _ _ (λ _. pure-Preserves none) (λ _. parsed-Unlogged (parse s))

  pub create-Unlogged :
      (parse : String → Option ℕ) (request : IncidentRequest) (user : Option ℕ)
      → Preserves Unlogged (create parse request user)
  unfolding create
  create-Unlogged parse request user = search (unlogged_rules, uuid-Unlogged) depth 9

  pub change-Unlogged :
      (parse : String → Option ℕ) (id : ℕ) (request : IncidentRequest) (user : Option ℕ)
      → Preserves Unlogged (update_incident parse id request user)
  unfolding update_incident
  change-Unlogged parse id request user = search (unlogged_rules, uuid-Unlogged) depth 9

  pub archive-Unlogged : (id : ℕ) (user : Option ℕ) → Preserves Unlogged (archive id user)
  unfolding archive
  archive-Unlogged id user = search unlogged_rules

  pub post_mortem-Unlogged :
      (id : ℕ) (url : String) (user : Option ℕ)
      → Preserves Unlogged (set_post_mortem_url id url user)
  unfolding set_post_mortem_url
  post_mortem-Unlogged id url user = search unlogged_rules depth 9

  pub merge-Unlogged :
      (target source : ℕ) (user : Option ℕ) → Preserves Unlogged (merge target source user)
  unfolding merge merge_target merge_source merge_rows
  merge-Unlogged target source user = search unlogged_rules depth 14
