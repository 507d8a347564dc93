-- ===== src/Incident/Knows.antt =====
-- What an incident that is not merged has is kept by the statements on other incidents.
use nightowl.Base.{
  ℕ, ◌≡◌, ◌∙◌, String, true, false, List, Option, some, none, is_none, ◌==◌, find, arith,
  find-update_other,
}
use nightowl.Sql.Preserves.{Preserves, preserves_rules, statement-Preserves, exec-Preserves}
use nightowl.Schema.{Database, Incident}
use nightowl.Incident.Store.{
  has_string, is_live, merge_live, set_merged, set_merged_into, reassign_alerts, create_history,
  get_runbook_summary,
}
use nightowl.Incident.Service.{runbook_of, respond, record_history}

module _ (fingerprint : String) where
  -- The incident `id` is not merged and has the fingerprint.
  abbrev pub Knows : ℕ → Database → Type 0
  Knows id db =
      (row : Incident) × (find (λ i. i.id == id) db.incidents ≡ some row)
      × (is_none row.merged_into_id ≡ true)
      × (has_string fingerprint row.fingerprints ≡ true)

  module _ (id source target : ℕ) (other : (id == source) ≡ false) where
    apart : (i : Incident) → is_live source i ≡ true → (i.id == id) ≡ false
    apart i h = ground (arith, other)

    merge_live-Knows :
        (row : Option Incident) (db : Database)
        → Knows id db
        → Knows id (merge_live row source target db).1
    merge_live-Knows none db h = h
    merge_live-Knows (some row) db (found, e, live, has) = (
      found,
      find-update_other (λ i. i.id == id) (is_live source) _ db.incidents (λ i hit. apart i hit)
            (λ i hit. apart i hit)
          ∙ e,
      live,
      has,
    )

    pub mark-Knows : Preserves (Knows id) (set_merged_into source target)
    unfolding set_merged_into
    mark-Knows =
        statement-Preserves (set_merged source target)
          (λ db h. merge_live-Knows (find (is_live source) db.incidents) db h)

  pub alerts-Knows : (id source target : ℕ) → Preserves (Knows id) (reassign_alerts source target)
  unfolding reassign_alerts
  alerts-Knows id source target = statement-Preserves _ (λ db h. h)

  entry-Knows :
      (id i : ℕ) (user : Option ℕ) (change_type : String) (diff : List String)
      → Preserves (Knows id) (create_history i user change_type diff)
  unfolding create_history
  entry-Knows id i user change_type diff = exec-Preserves _ (λ db h. h)

  pub history-Knows :
      (id i : ℕ) (user : Option ℕ) (change_type : String) (diff : List String)
      → Preserves (Knows id) (record_history i user change_type diff)
  unfolding record_history
  history-Knows id i user change_type diff = search (preserves_rules, entry-Knows)

  runbook-Knows : (id : ℕ) (runbook : Option ℕ) → Preserves (Knows id) (runbook_of runbook)
  unfolding get_runbook_summary
  runbook-Knows id none = search preserves_rules
  runbook-Knows id (some r) = search preserves_rules

  pub respond-Knows : (id : ℕ) (row : Incident) → Preserves (Knows id) (respond row)
  unfolding respond
  respond-Knows id row = search (preserves_rules, runbook-Knows)
