-- ===== src/Incident/Final.antt =====
-- Merging and archiving are final.
use nightowl.Base.{
  ℕ, ◌<◌, ◌≡◌, ap, String, true, List, [], ◌∷◌, Option, none, some, is_none, find, All, All-update,
  All-append_one, arith,
}
use nightowl.Sql.{Sql, pure, raise}
use nightowl.Sql.Preserves.{
  Preserves, preserves_rules, if-Preserves, pure-Preserves, statement-Preserves, exec-Preserves,
}
use nightowl.Schema.{Database, Incident}
use nightowl.Incident.Store.{
  IncidentParams, get_incident, new_incident, insert_incident, with_fields, returning,
  change_incident, update_incident_row, set_post_mortem_row, is_live, merge_live, set_merged,
  set_merged_into, soft_delete, reassign_alerts, create_history, get_runbook_summary,
}
use nightowl.Incident.Service.{
  IncidentError, parsing_runbook_id, IncidentRequest, runbook_of, respond, record_history,
  record_diff, parse_uuid_ptr, create, update_incident, archive, set_post_mortem_url, merge_rows,
  merge_source, merge_target, merge,
}

module _ (n m : ℕ) where
  abbrev IsFinalRow : Incident → Type 0
  IsFinalRow i = i.id ≡ n → i.merged_into_id ≡ some m

  -- The incident `n` has been merged into `m`; ids are not given twice.
  abbrev pub IsFinal : Database → Type 0
  IsFinal db = (n < db.next_id) × All IsFinalRow db.incidents

  returning-IsFinal :
      (row : Option Incident) (old new : Database)
      → IsFinal old
      → IsFinal new
      → IsFinal (returning row old new).1
  returning-IsFinal none old new ho hn = ho
  returning-IsFinal (some row) old new ho hn = hn

  change-IsFinal :
      (id : ℕ) (f : ℕ → Incident → Incident)
      → ((now : ℕ) (i : Incident) → IsFinalRow i → IsFinalRow (f now i))
      → Preserves IsFinal (change_incident id f)
  change-IsFinal id f keep = statement-Preserves _ (λ db h.
      returning-IsFinal _ db _ h
        (h.0, All-update IsFinalRow _ (f db.now) db.incidents (λ i hit. keep db.now i) h.1))

  live-absurd : (id : ℕ) (i : Incident) → is_live id i ≡ true → i.merged_into_id ≡ some m → ⊥
  live-absurd id i live merged = ground (arith, live, ap is_none merged)

  merge_live-IsFinal :
      (row : Option Incident) (id target : ℕ) (db : Database)
      → IsFinal db
      → IsFinal (merge_live row id target db).1
  merge_live-IsFinal none id target db h = h
  merge_live-IsFinal (some row) id target db h = (
    h.0,
    All-update IsFinalRow (is_live id) _ db.incidents
        (λ x hit hx same. absurd (live-absurd id x hit (hx same))) h.1,
  )

  insert-IsFinal :
      (p : IncidentParams) (user : Option ℕ) → Preserves IsFinal (insert_incident p user)
  unfolding insert_incident
  insert-IsFinal p user = statement-Preserves _ (λ db h. (
    omega (arith, h.0),
    All-append_one IsFinalRow db.incidents (new_incident p user db.next_id db.now) h.1
        (λ e. absurd (omega (arith, e, h.0))),
  ))

  alerts-IsFinal : (source target : ℕ) → Preserves IsFinal (reassign_alerts source target)
  unfolding reassign_alerts
  alerts-IsFinal source target = statement-Preserves _ (λ db h. h)

  history-IsFinal :
      (id : ℕ) (user : Option ℕ) (change_type : String) (diff : List String)
      → Preserves IsFinal (create_history id user change_type diff)
  unfolding create_history
  history-IsFinal id user change_type diff = exec-Preserves _ (λ db h. (omega (arith, h.0), h.1))

  record_history-IsFinal :
      (id : ℕ) (user : Option ℕ) (change_type : String) (diff : List String)
      → Preserves IsFinal (record_history id user change_type diff)
  unfolding record_history
  record_history-IsFinal id user change_type diff = search (preserves_rules, history-IsFinal)

  record_diff-IsFinal :
      (id : ℕ) (user : Option ℕ) (diff : List String) → Preserves IsFinal (record_diff id user diff)
  unfolding record_diff
  record_diff-IsFinal id user [] = search preserves_rules
  record_diff-IsFinal id user (key ∷ keys) = record_history-IsFinal id user "updated" (key ∷ keys)

  runbook-IsFinal : (id : ℕ) → Preserves IsFinal (get_runbook_summary id)
  unfolding get_runbook_summary
  runbook-IsFinal id = search preserves_rules

  runbook_of-IsFinal : (id : Option ℕ) → Preserves IsFinal (runbook_of id)
  runbook_of-IsFinal none = search preserves_rules
  runbook_of-IsFinal (some id) = search (preserves_rules, runbook-IsFinal)

  respond-IsFinal : (row : Incident) → Preserves IsFinal (respond row)
  unfolding respond
  respond-IsFinal row = search (preserves_rules, runbook_of-IsFinal)

  get-IsFinal : (id : ℕ) → Preserves IsFinal (get_incident id)
  unfolding get_incident
  get-IsFinal id = search preserves_rules

  update-IsFinal : (id : ℕ) (p : IncidentParams) → Preserves IsFinal (update_incident_row id p)
  unfolding update_incident_row
  update-IsFinal id p = change-IsFinal id (with_fields p) (λ now i h. h)

  url-IsFinal : (id : ℕ) (url : String) → Preserves IsFinal (set_post_mortem_row id url)
  unfolding set_post_mortem_row
  url-IsFinal id url = change-IsFinal id _ (λ now i h. h)

  mark-IsFinal : (source target : ℕ) → Preserves IsFinal (set_merged_into source target)
  unfolding set_merged_into
  mark-IsFinal source target =
      statement-Preserves (set_merged source target)
        (λ db. merge_live-IsFinal (find (is_live source) db.incidents) source target db)

  delete-IsFinal : (id : ℕ) → Preserves IsFinal (soft_delete id)
  unfolding soft_delete
  delete-IsFinal id =
      statement-Preserves (set_merged id id)
        (λ db. merge_live-IsFinal (find (is_live id) db.incidents) id id db)

  merge_rows-IsFinal :
      (target source : Incident) (target_id source_id : ℕ) (user : Option ℕ)
      → Preserves IsFinal (merge_rows target source target_id source_id user)
  unfolding merge_rows
  merge_rows-IsFinal target source target_id source_id user =
      search
        (
          preserves_rules, update-IsFinal, mark-IsFinal, alerts-IsFinal, record_history-IsFinal,
          respond-IsFinal,
        )
        depth 9

  merge_source-IsFinal :
      (target : Incident) (target_id source_id : ℕ) (user : Option ℕ)
      → Preserves IsFinal (merge_source target target_id source_id user)
  unfolding merge_source
  merge_source-IsFinal target target_id source_id user =
      search (preserves_rules, get-IsFinal, merge_rows-IsFinal)

  merge_target-IsFinal :
      (target_id source_id : ℕ) (user : Option ℕ)
      → Preserves IsFinal (merge_target target_id source_id user)
  unfolding merge_target
  merge_target-IsFinal target_id source_id user =
      search (preserves_rules, get-IsFinal, merge_source-IsFinal)

  parsed-IsFinal :
      (id : Option ℕ)
      → Preserves IsFinal (elim id as (λ _. Sql Database IncidentError (Option ℕ)) [
        | none ↦ raise parsing_runbook_id
        | some id ↦ pure (some id)
      ])
  parsed-IsFinal none = search preserves_rules
  parsed-IsFinal (some id) = search preserves_rules

  parse-IsFinal :
      (parse : String → Option ℕ) (text : Option String)
      → Preserves IsFinal (parse_uuid_ptr parse text)
  unfolding parse_uuid_ptr
  parse-IsFinal parse none = search preserves_rules
  parse-IsFinal parse (some s) =
      if-Preserves _ _ _ (λ _. pure-Preserves none) (λ _. parsed-IsFinal (parse s))

  -- Once an incident has been merged into another, or archived, no operation of the service changes
  -- what it is merged into, whichever statements fail: not a merge, an update, an archiving, a
  -- post-mortem link, nor the creation of another incident.
  pub merged-IsFinal :
      (parse : String → Option ℕ) (request : IncidentRequest) (id other : ℕ) (url : String)
      (user : Option ℕ)
      → Preserves IsFinal (merge id other user)
        × Preserves IsFinal (update_incident parse id request user)
        × Preserves IsFinal (archive id user)
        × Preserves IsFinal (set_post_mortem_url id url user)
        × Preserves IsFinal (create parse request user)
  unfolding merge update_incident archive set_post_mortem_url create
  merged-IsFinal parse request id other url user = (
    search (preserves_rules, merge_target-IsFinal),
    search (
      preserves_rules, get-IsFinal, parse-IsFinal, update-IsFinal, record_diff-IsFinal,
      respond-IsFinal,
    ),
    search (preserves_rules, delete-IsFinal, record_history-IsFinal),
    search (preserves_rules, get-IsFinal, url-IsFinal, record_diff-IsFinal, respond-IsFinal),
    search
        (preserves_rules, parse-IsFinal, insert-IsFinal, record_history-IsFinal, respond-IsFinal),
  )
