-- ===== src/Alerts/NeverEscalated.antt =====
-- Received alerts and the escalation engine.
use nightowl.Base.{
  inl, inr, ℕ, ◌≡◌, refl, String, str_eq, Bool, true, false, ◌&&◌, not, List, [], ◌∷◌, Option,
  is_none, select, sort_by_empty, Bool-cases, All,
}
use nightowl.Sql.{SqlError, no_rows, failed, Result, ok, err, pure, ◌>>=◌, query, statement, wrap}
use nightowl.Sql.Preserves.{
  Preserves, preserves_rules, bind-Preserves, attempt-Preserves, if-Preserves, pure-Preserves,
}
use nightowl.Schema.{Database, Alert, received}
use nightowl.Alerts.Normalize.{
  Externals, NormalizedAlert, AlertmanagerAlert, KeepPayload, GenericPayload, normalize_keep,
  normalize_generic,
}
use nightowl.Alerts.Dedup.{AlertError}
use nightowl.Alerts.Webhook.{
  unprocessable, AlertResponse, audited, auto_resolved, handle_alertmanager_alert,
  handle_alertmanager_alerts, handle_alertmanager, reply_of, handle_keep, resolve_by_agent,
  reply_generic, handle_generic,
}
use nightowl.Alerts.Handler.{answer, handle_acknowledge, handle_resolve}
use nightowl.Alerts.Unassigned.{
  IsUnassigned, NoPolicy, acknowledge-IsUnassigned, resolve-IsUnassigned,
  by_fingerprint-IsUnassigned, by_agent-IsUnassigned, metric-IsUnassigned, audit-IsUnassigned,
  kb_entry-IsUnassigned,
}
use nightowl.Alerts.Intake.{dedup-IsUnassigned}
use nightowl.Escalation.Engine.{process_tenant, process_alerts, list_pending_escalation_alerts}

module _ (env : Externals) (schema : String) where
  audited-IsUnassigned :
      (r : Result AlertError (AlertResponse × Bool)) → Preserves IsUnassigned (audited env schema r)
  unfolding audited
  audited-IsUnassigned (err e) = search preserves_rules
  audited-IsUnassigned (ok (resp, is_dup)) = search (preserves_rules, audit-IsUnassigned)

  auto-IsUnassigned :
      (r : Result SqlError Alert) → Preserves IsUnassigned (auto_resolved env schema r)
  unfolding auto_resolved
  auto-IsUnassigned (err e) = search preserves_rules
  auto-IsUnassigned (ok row) = search (preserves_rules, audit-IsUnassigned)

  one-IsUnassigned :
      (n : NormalizedAlert) → Preserves IsUnassigned (handle_alertmanager_alert env schema n)
  unfolding handle_alertmanager_alert
  one-IsUnassigned n =
      if-Preserves _ _ _
        (λ _.
          bind-Preserves _ _ (attempt-Preserves _ (by_fingerprint-IsUnassigned n.fingerprint))
            auto-IsUnassigned)
        (λ _.
          bind-Preserves _ _ (attempt-Preserves _ (dedup-IsUnassigned env schema n))
            audited-IsUnassigned)

  all-IsUnassigned :
      (alerts : List AlertmanagerAlert)
      → Preserves IsUnassigned (handle_alertmanager_alerts env schema alerts)
  unfolding handle_alertmanager_alerts
  all-IsUnassigned [] = search preserves_rules
  all-IsUnassigned (a ∷ rest) =
      let ih : Preserves IsUnassigned (handle_alertmanager_alerts env schema rest) =
        all-IsUnassigned rest in
      search (preserves_rules, metric-IsUnassigned, one-IsUnassigned)

  alertmanager-IsUnassigned :
      (alerts : List AlertmanagerAlert)
      → Preserves IsUnassigned (handle_alertmanager env schema alerts)
  unfolding handle_alertmanager
  alertmanager-IsUnassigned [] = search preserves_rules
  alertmanager-IsUnassigned (a ∷ rest) = search (preserves_rules, all-IsUnassigned)

  reply-IsUnassigned :
      (r : Result AlertError (AlertResponse × Bool))
      → Preserves IsUnassigned (reply_of env schema r)
  unfolding reply_of
  reply-IsUnassigned (err e) = search preserves_rules
  reply-IsUnassigned (ok (resp, is_dup)) = search (preserves_rules, audit-IsUnassigned)

  keep-IsUnassigned : (p : KeepPayload) → Preserves IsUnassigned (handle_keep env schema p)
  unfolding handle_keep
  keep-IsUnassigned p =
      if-Preserves _ _ _ (λ _. pure-Preserves unprocessable)
        (λ _.
          bind-Preserves _ _ (metric-IsUnassigned (received "keep" (normalize_keep env p).severity))
            (λ _.
              bind-Preserves _ _
                (attempt-Preserves _ (dedup-IsUnassigned env schema (normalize_keep env p)))
                reply-IsUnassigned))

  agent-IsUnassigned :
      (n : NormalizedAlert) (resp : AlertResponse)
      → Preserves IsUnassigned (resolve_by_agent env schema n resp)
  unfolding resolve_by_agent
  agent-IsUnassigned n resp =
      search (preserves_rules, by_agent-IsUnassigned, kb_entry-IsUnassigned, metric-IsUnassigned)

  reply_generic-IsUnassigned :
      (n : NormalizedAlert) (r : Result AlertError (AlertResponse × Bool))
      → Preserves IsUnassigned (reply_generic env schema n r)
  unfolding reply_generic
  reply_generic-IsUnassigned n (err e) = search preserves_rules
  reply_generic-IsUnassigned n (ok (resp, is_dup)) =
      search (preserves_rules, agent-IsUnassigned, audit-IsUnassigned)

  generic-IsUnassigned : (p : GenericPayload) → Preserves IsUnassigned (handle_generic env schema p)
  unfolding handle_generic
  generic-IsUnassigned p =
      if-Preserves _ _ _ (λ _. pure-Preserves unprocessable)
        (λ _.
          bind-Preserves _ _
            (metric-IsUnassigned
              (received (normalize_generic env p).source (normalize_generic env p).severity))
            (λ _.
              bind-Preserves _ _
                (attempt-Preserves _ (dedup-IsUnassigned env schema (normalize_generic env p)))
                (reply_generic-IsUnassigned (normalize_generic env p))))

  answer-IsUnassigned :
      (action : String) (r : Result SqlError Alert) → Preserves IsUnassigned (answer action r)
  unfolding answer
  answer-IsUnassigned action (ok row) = search (preserves_rules, audit-IsUnassigned)
  answer-IsUnassigned action (err no_rows) = search preserves_rules
  answer-IsUnassigned action (err failed) = search preserves_rules

  -- No webhook and no handler gives an alert an escalation policy: if none has one, none has one
  -- afterwards, whichever statements fail.
  pub received-IsUnassigned :
      (alerts : List AlertmanagerAlert) (k : KeepPayload) (g : GenericPayload) (id : ℕ)
      (user : Option ℕ)
      → Preserves IsUnassigned (handle_alertmanager env schema alerts)
        × Preserves IsUnassigned (handle_keep env schema k)
        × Preserves IsUnassigned (handle_generic env schema g)
        × Preserves IsUnassigned (handle_acknowledge id user)
        × Preserves IsUnassigned (handle_resolve id user)
  unfolding handle_acknowledge handle_resolve
  received-IsUnassigned alerts k g id user = (
    alertmanager-IsUnassigned alerts,
    keep-IsUnassigned k,
    generic-IsUnassigned g,
    search (preserves_rules, acknowledge-IsUnassigned, answer-IsUnassigned),
    search (preserves_rules, resolve-IsUnassigned, answer-IsUnassigned),
  )

no_pending :
    (xs : List Alert)
    → All NoPolicy xs
    → select (λ a. str_eq a.status "firing" && not (is_none a.escalation_policy_id)) xs ≡ []
no_pending [] h = refl
no_pending (a ∷ xs) (ha, h) = elim (Bool-cases (str_eq a.status "firing")) [
  | inl firing ↦ rw (firing, ha) (no_pending xs h)
  | inr quiet ↦ rw quiet (no_pending xs h)
]

-- As long as no alert has an escalation policy, a poll of the escalation engine leaves every table,
-- message and metric as it is.
pub unassigned_never_escalated :
    (db : Database) (faults : List Bool)
    → IsUnassigned db
    → (process_tenant (record { db = db; faults = faults })).1.db ≡ db
unfolding process_tenant process_alerts list_pending_escalation_alerts wrap query statement ◌>>=◌
    pure
unassigned_never_escalated db [] h =
    rw (no_pending db.alerts h, sort_by_empty {A = Alert} (λ a. a.created_at)) refl
unassigned_never_escalated db (false ∷ faults) h =
    rw (no_pending db.alerts h, sort_by_empty {A = Alert} (λ a. a.created_at)) refl
unassigned_never_escalated db (true ∷ faults) h = refl
