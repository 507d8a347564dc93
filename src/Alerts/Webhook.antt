-- ===== src/Alerts/Webhook.antt =====
-- The webhook handlers after decoding of the body (pkg/alert/webhook.go), configured with a
-- deduplicator, a grouper, an enricher, an audit log and metrics.
use nightowl.Base.{
  ℕ, String, str_eq, Bool, true, false, ◌&&◌, not, List, [], ◌∷◌, ◌++◌, Option, none, some,
  if◌then◌else◌,
}
use nightowl.Sql.{Sql, SqlError, Result, ok, err, pure, modify, ◌>>=◌, ◌>>◌, attempt, wrap}
use nightowl.Schema.{Database, Alert, Metric, received, kb_hit, agent_resolved}
use nightowl.AlertGroup.Evaluator.{Grouped, evaluate}
use nightowl.Incident.Store.{insert_incident}
use nightowl.Alerts.Normalize.{
  Externals, NormalizedAlert, AlertmanagerAlert, KeepPayload, GenericPayload,
  normalize_alertmanager, normalize_keep, normalize_generic,
}
use nightowl.Alerts.Store.{
  create_alert, resolve_alert_by_fingerprint, resolve_alert_by_agent, with_audit,
}
use nightowl.Alerts.Dedup.{AlertError, creating_alert, check, increment_and_return, record_new}
use nightowl.Alerts.Enrich.{EnrichResult, enrich}

-- Response: an alert's row, with what the handler sets besides.
pub record AlertResponse : Type 0 where
  pub alert : Alert
  pub runbook_url : Option String

-- What a handler answers: 400 is left to the decoding.
pub data Reply : Type 0 where
  created : AlertResponse → Reply
  created_batch : List AlertResponse → Reply
  unprocessable internal_error : Reply

abbrev pub respond_row : Alert → AlertResponse
respond_row a = record { alert = a; runbook_url = none }

abbrev with_group : Alert → Option Grouped → Alert
with_group a none = a
with_group a (some g) = record a { alert_group_id = some g.group_id }

-- The id is a pointer to the result's field, whether or not an incident matched.
abbrev pub with_enrichment : AlertResponse → EnrichResult → AlertResponse
with_enrichment resp result = record {
  alert = record resp.alert {
    matched_incident_id = some result.matched_incident_id;
    suggested_solution =
        if str_eq result.suggested_solution ""
        then resp.alert.suggested_solution
        else some result.suggested_solution;
  };
  runbook_url = if str_eq result.runbook_url "" then resp.runbook_url else some result.runbook_url;
}

abbrev pub add_metric : Metric → Sql Database AlertError (Unit {0})
add_metric m = modify (λ db. record db { metrics = db.metrics ++ m ∷ [] })

abbrev pub audit : String → ℕ → Sql Database AlertError (Unit {0})
audit action id = modify (with_audit action "alert" id)

abbrev grouped_or_none : Result SqlError (Option Grouped) → Option Grouped
grouped_or_none (ok g) = g
grouped_or_none (err e) = none

abbrev pub created_action : Bool → String
created_action is_dup = if is_dup then "deduplicate" else "create"

-- createAgentKBEntry
unfoldable pub create_agent_kb_entry : NormalizedAlert → Sql Database AlertError (Unit {0})
create_agent_kb_entry a = do
  done ← attempt (
      insert_incident
        (record {
          title = a.title;
          fingerprints = a.fingerprint ∷ [];
          severity = a.severity;
          category = some "agent-resolved";
          tags = "auto-resolved" ∷ "agent" ∷ [];
          services = [];
          clusters = [];
          namespaces = [];
          symptoms = a.description;
          error_patterns = [];
          root_cause = none;
          solution = some a.agent_resolution_notes;
          runbook_id = none;
        })
        none)
  pure tt

module _ (env : Externals) (schema : String) where
  unfoldable pub enriched : AlertResponse → EnrichResult → Sql Database AlertError AlertResponse
  enriched resp result =
      if result.is_enriched
      then (add_metric kb_hit >>= λ _. pure (with_enrichment resp result))
      else pure resp

  -- Grouping and enriching a new alert, which only a firing one is put through.
  unfoldable pub enrich_created : NormalizedAlert → Alert → Sql Database AlertError AlertResponse
  enrich_created n row = do
    grouped ← attempt (evaluate env.compile env.sha256_hex env.name_le row.id n.severity n.labels)
    result ← enrich env row.id n.fingerprint n.title n.description
    enriched (respond_row (with_group row (grouped_or_none grouped))) result

  -- A new alert.
  unfoldable pub create_new : NormalizedAlert → Sql Database AlertError (AlertResponse × Bool)
  create_new n = do
    row ← wrap creating_alert (create_alert n)
    record_new schema n.fingerprint row.id
    resp ← if str_eq n.status "firing" then enrich_created n row else pure (respond_row row)
    pure (resp, false)

  -- A check that failed is logged, and a new alert is created.
  unfoldable pub after_check :
      NormalizedAlert
      → Result AlertError (Option ℕ)
      → Sql Database AlertError (AlertResponse × Bool)
  after_check n (ok (some id)) = increment_and_return id >>= λ row. pure (respond_row row, true)
  after_check n (ok none) = create_new n
  after_check n (err e) = create_new n

  -- createOrDedup: the alert, and whether it is a duplicate.
  unfoldable pub create_or_dedup : NormalizedAlert → Sql Database AlertError (AlertResponse × Bool)
  create_or_dedup n =
      if str_eq n.status "firing"
      then (attempt (check schema n.fingerprint) >>= λ r. after_check n r)
      else create_new n

  -- The answer to one alert: none if it failed.
  unfoldable pub audited :
      Result AlertError (AlertResponse × Bool) → Sql Database AlertError (List AlertResponse)
  audited (err e) = pure []
  audited (ok (resp, is_dup)) =
      audit (created_action is_dup) resp.alert.id >>= λ _. pure (resp ∷ [])

  unfoldable pub auto_resolved :
      Result SqlError Alert → Sql Database AlertError (List AlertResponse)
  auto_resolved (err e) = pure []
  auto_resolved (ok row) = audit "auto_resolve" row.id >>= λ _. pure (respond_row row ∷ [])

  -- One alert of an Alertmanager payload.
  unfoldable pub handle_alertmanager_alert :
      NormalizedAlert → Sql Database AlertError (List AlertResponse)
  handle_alertmanager_alert n =
      if str_eq n.status "resolved"
      then (attempt (resolve_alert_by_fingerprint n.fingerprint) >>= λ r. auto_resolved r)
      else (attempt (create_or_dedup n) >>= λ r. audited r)

  unfoldable pub handle_alertmanager_alerts :
      List AlertmanagerAlert → Sql Database AlertError (List AlertResponse)
  handle_alertmanager_alerts [] = pure []
  handle_alertmanager_alerts (a ∷ rest) = do
    add_metric (received "alertmanager" (normalize_alertmanager env a).severity)
    now ← handle_alertmanager_alert (normalize_alertmanager env a)
    later ← handle_alertmanager_alerts rest
    pure (now ++ later)

  unfoldable pub handle_alertmanager : List AlertmanagerAlert → Sql Database AlertError Reply
  handle_alertmanager [] = pure unprocessable
  handle_alertmanager (a ∷ rest) =
      handle_alertmanager_alerts (a ∷ rest) >>= λ results. pure (created_batch results)

  unfoldable pub reply_of : Result AlertError (AlertResponse × Bool) → Sql Database AlertError Reply
  reply_of (err e) = pure internal_error
  reply_of (ok (resp, is_dup)) =
      audit (created_action is_dup) resp.alert.id >>= λ _. pure (created resp)

  unfoldable pub handle_keep : KeepPayload → Sql Database AlertError Reply
  handle_keep p =
      if str_eq p.name ""
      then pure unprocessable
      else (add_metric (received "keep" (normalize_keep env p).severity) >>= λ _.
          attempt (create_or_dedup (normalize_keep env p)) >>= λ r. reply_of r)

  abbrev row_or : AlertResponse → Result SqlError Alert → AlertResponse
  row_or resp (ok row) = respond_row row
  row_or resp (err e) = resp

  -- An alert that an agent resolved: it is marked so, and the knowledge base gets an entry.
  unfoldable pub resolve_by_agent :
      NormalizedAlert → AlertResponse → Sql Database AlertError AlertResponse
  resolve_by_agent n resp = do
    r ← attempt (resolve_alert_by_agent resp.alert.id n.agent_resolution_notes)
    create_agent_kb_entry n
    add_metric agent_resolved
    pure (row_or resp r)

  abbrev pub generic_action : Bool → Bool → String
  generic_action is_dup by_agent =
      if is_dup then "deduplicate" else if by_agent then "agent_resolve" else "create"

  unfoldable pub reply_generic :
      NormalizedAlert → Result AlertError (AlertResponse × Bool) → Sql Database AlertError Reply
  reply_generic n (err e) = pure internal_error
  reply_generic n (ok (resp, is_dup)) = do
    final ← if n.resolved_by_agent && not is_dup then resolve_by_agent n resp else pure resp
    audit (generic_action is_dup n.resolved_by_agent) final.alert.id
    pure (created final)

  unfoldable pub handle_generic : GenericPayload → Sql Database AlertError Reply
  handle_generic p =
      let n = normalize_generic env p in
      if str_eq p.title ""
      then pure unprocessable
      else (add_metric (received n.source n.severity) >>= λ _.
          attempt (create_or_dedup n) >>= λ r. reply_generic n r)
