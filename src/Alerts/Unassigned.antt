-- ===== src/Alerts/Unassigned.antt =====
-- Alerts and escalation policies.
use nightowl.Base.{
  ℕ, ◌+◌, ◌≡◌, refl, String, Bool, Option, none, some, ◌==◌, if◌then◌else◌, find, update, All,
  All-update, All-append_one,
}
use nightowl.Sql.{SqlError, no_rows, failed, Result, ok, err}
use nightowl.Sql.Preserves.{
  Preserves, preserves_rules, statement-Preserves, exec-Preserves, modify-Preserves,
}
use nightowl.Schema.{Database, Alert, AlertGroup, LabelMap, Metric}
use nightowl.Alerts.Store.{
  get_alert, get_alert_by_fingerprint, change_alerts, returning_alert, create_alert, new_alert,
  increment_alert_occurrence, acknowledge_alert, resolve_alert, resolve_alert_by_fingerprint,
  resolve_alert_by_agent,
}
use nightowl.Alerts.Normalize.{NormalizedAlert}
use nightowl.AlertGroup.Store.{
  is_group, upsert_group, find_or_create_group, set_alert_group, count_in_group,
  assign_alert_to_group,
}
use nightowl.Incident.Store.{IncidentParams, insert_incident}
use nightowl.Alerts.Dedup.{
  redis_get, redis_set, cache_set, check_row, check_hit, check, increment_and_return,
}
use nightowl.Alerts.Enrich.{EnrichResult, apply_enrichment, solution_column}
use nightowl.Alerts.Webhook.{add_metric, audit, create_agent_kb_entry}

abbrev pub NoPolicy : Alert → Type 0
NoPolicy a = a.escalation_policy_id ≡ none

-- No alert has an escalation policy.
abbrev pub IsUnassigned : Database → Type 0
IsUnassigned db = All NoPolicy db.alerts

returning-IsUnassigned :
    (row : Option Alert) (f : Alert → Alert) (old new : Database)
    → IsUnassigned old
    → IsUnassigned new
    → IsUnassigned (returning_alert row f old new).1
returning-IsUnassigned none f old new ho hn = ho
returning-IsUnassigned (some a) f old new ho hn = hn

change-IsUnassigned :
    (p : Alert → Bool) (f : ℕ → Alert → Alert)
    → ((now : ℕ) (a : Alert) → NoPolicy a → NoPolicy (f now a))
    → Preserves IsUnassigned (change_alerts p f)
change-IsUnassigned p f keep = statement-Preserves _ (λ db h.
    returning-IsUnassigned _ (f db.now) db (record db { alerts = update p (f db.now) db.alerts }) h
      (All-update NoPolicy p (f db.now) db.alerts (λ a hit. keep db.now a) h))

pub create-IsUnassigned : (n : NormalizedAlert) → Preserves IsUnassigned (create_alert n)
unfolding create_alert
create-IsUnassigned n =
    statement-Preserves _
      (λ db h. All-append_one NoPolicy db.alerts (new_alert n db.next_id db.now) h refl)

increment-IsUnassigned : (id : ℕ) → Preserves IsUnassigned (increment_alert_occurrence id)
unfolding increment_alert_occurrence
increment-IsUnassigned id = exec-Preserves _ (λ db h.
    All-update NoPolicy (λ a. a.id == id)
      (λ a. record a {
        occurrence_count = a.occurrence_count + 1;
        last_fired_at = db.now;
        updated_at = db.now;
      })
      db.alerts (λ a hit ha. ha) h)

pub acknowledge-IsUnassigned :
    (id : ℕ) (user : Option ℕ) → Preserves IsUnassigned (acknowledge_alert id user)
unfolding acknowledge_alert
acknowledge-IsUnassigned id user = change-IsUnassigned _ _ (λ now a h. h)

pub resolve-IsUnassigned :
    (id : ℕ) (user : Option ℕ) → Preserves IsUnassigned (resolve_alert id user)
unfolding resolve_alert
resolve-IsUnassigned id user = change-IsUnassigned _ _ (λ now a h. h)

pub by_fingerprint-IsUnassigned :
    (fingerprint : String) → Preserves IsUnassigned (resolve_alert_by_fingerprint fingerprint)
unfolding resolve_alert_by_fingerprint
by_fingerprint-IsUnassigned fingerprint = change-IsUnassigned _ _ (λ now a h. h)

pub by_agent-IsUnassigned :
    (id : ℕ) (notes : String) → Preserves IsUnassigned (resolve_alert_by_agent id notes)
unfolding resolve_alert_by_agent
by_agent-IsUnassigned id notes = change-IsUnassigned _ _ (λ now a h. h)

set_group-IsUnassigned : (alert group : ℕ) → Preserves IsUnassigned (set_alert_group alert group)
unfolding set_alert_group
set_group-IsUnassigned alert group = exec-Preserves _ (λ db h.
    All-update NoPolicy (λ a. a.id == alert)
      (λ a. record a { alert_group_id = some group; updated_at = db.now }) db.alerts
      (λ a hit ha. ha) h)

count_in-IsUnassigned :
    (group : ℕ) (severity : String) → Preserves IsUnassigned (count_in_group group severity)
unfolding count_in_group
count_in-IsUnassigned group severity = exec-Preserves _ (λ db h. h)

upsert-IsUnassigned :
    (rule : ℕ) (hash title : String) (labels : LabelMap) (found : Option AlertGroup) (db : Database)
    → IsUnassigned db
    → IsUnassigned (upsert_group rule hash title labels found db).1
upsert-IsUnassigned rule hash title labels none db h = h
upsert-IsUnassigned rule hash title labels (some g) db h = h

pub group-IsUnassigned :
    (rule : ℕ) (hash title : String) (labels : LabelMap)
    → Preserves IsUnassigned (find_or_create_group rule hash title labels)
unfolding find_or_create_group
group-IsUnassigned rule hash title labels =
    statement-Preserves
      (λ db. upsert_group rule hash title labels (find (is_group rule hash) db.alert_groups) db)
      (λ db h. upsert-IsUnassigned rule hash title labels _ db h)

pub assign-IsUnassigned :
    (alert group : ℕ) (severity : String)
    → Preserves IsUnassigned (assign_alert_to_group alert group severity)
unfolding assign_alert_to_group
assign-IsUnassigned alert group severity =
    search (preserves_rules, set_group-IsUnassigned, count_in-IsUnassigned)

pub apply-IsUnassigned :
    (id : ℕ) (r : EnrichResult) → Preserves IsUnassigned (apply_enrichment id r)
unfolding apply_enrichment
apply-IsUnassigned id r = exec-Preserves _ (λ db h.
    All-update NoPolicy (λ a. a.id == id)
      (λ a. record a {
        matched_incident_id =
            if r.matched_incident_id == 0
            then a.matched_incident_id
            else some r.matched_incident_id;
        suggested_solution = solution_column r.suggested_solution;
        updated_at = db.now;
      })
      db.alerts (λ a hit ha. ha) h)

insert-IsUnassigned :
    (p : IncidentParams) (user : Option ℕ) → Preserves IsUnassigned (insert_incident p user)
unfolding insert_incident
insert-IsUnassigned p user = statement-Preserves _ (λ db h. h)

redis_set-IsUnassigned : (key : String) (id : ℕ) → Preserves IsUnassigned (redis_set key id)
unfolding redis_set
redis_set-IsUnassigned key id = exec-Preserves _ (λ db h. h)

redis_get-IsUnassigned : (key : String) → Preserves IsUnassigned (redis_get key)
unfolding redis_get
redis_get-IsUnassigned key = search preserves_rules

pub cache-IsUnassigned :
    (schema fingerprint : String) (id : ℕ)
    → Preserves IsUnassigned (cache_set schema fingerprint id)
unfolding cache_set
cache-IsUnassigned schema fingerprint id = search (preserves_rules, redis_set-IsUnassigned)

get-IsUnassigned : (id : ℕ) → Preserves IsUnassigned (get_alert id)
unfolding get_alert
get-IsUnassigned id = search preserves_rules

open-IsUnassigned :
    (fingerprint : String) → Preserves IsUnassigned (get_alert_by_fingerprint fingerprint)
unfolding get_alert_by_fingerprint
open-IsUnassigned fingerprint = search preserves_rules

check_row-IsUnassigned :
    (schema fingerprint : String) (r : Result SqlError Alert)
    → Preserves IsUnassigned (check_row schema fingerprint r)
unfolding check_row
check_row-IsUnassigned schema fingerprint (ok a) = search (preserves_rules, cache-IsUnassigned)
check_row-IsUnassigned schema fingerprint (err no_rows) = search preserves_rules
check_row-IsUnassigned schema fingerprint (err failed) = search preserves_rules

check_hit-IsUnassigned :
    (schema fingerprint : String) (id : Option ℕ)
    → Preserves IsUnassigned (check_hit schema fingerprint id)
unfolding check_hit
check_hit-IsUnassigned schema fingerprint (some id) = search preserves_rules
check_hit-IsUnassigned schema fingerprint none =
    search (preserves_rules, open-IsUnassigned, check_row-IsUnassigned)

pub check-IsUnassigned :
    (schema fingerprint : String) → Preserves IsUnassigned (check schema fingerprint)
unfolding check
check-IsUnassigned schema fingerprint =
    search (preserves_rules, redis_get-IsUnassigned, check_hit-IsUnassigned)

pub metric-IsUnassigned : (m : Metric) → Preserves IsUnassigned (add_metric m)
metric-IsUnassigned m = modify-Preserves _ (λ db h. h)

pub audit-IsUnassigned : (action : String) (id : ℕ) → Preserves IsUnassigned (audit action id)
audit-IsUnassigned action id = modify-Preserves _ (λ db h. h)

pub occurrence-IsUnassigned : (id : ℕ) → Preserves IsUnassigned (increment_and_return id)
unfolding increment_and_return
occurrence-IsUnassigned id =
    search (preserves_rules, increment-IsUnassigned, get-IsUnassigned, metric-IsUnassigned)

pub kb_entry-IsUnassigned : (n : NormalizedAlert) → Preserves IsUnassigned (create_agent_kb_entry n)
unfolding create_agent_kb_entry
kb_entry-IsUnassigned n = search (preserves_rules, insert-IsUnassigned)
