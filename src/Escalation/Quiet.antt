-- ===== src/Escalation/Quiet.antt =====
-- Alerts that the engine leaves alone.
use nightowl.Base.{
  ℕ, ◌≡◌, ◌≢◌, sym, ◌∙◌, inl, inr, ◌&&◌, not, List, [], ◌∷◌, ◌++◌, Option, none, some, String,
  str_eq, eq_iff, is_none, ◌==◌, ==_iff, select, update, All-sort_by, count, All, arith, Bool-cases,
}
use nightowl.Sql.Outcome.{query-eq-ok, wrap-eq-ok}
use nightowl.Sql.{Conn, SqlError, Result, ok, wrap, modify}
use nightowl.Sql.Preserves.{
  Preserves, preserves_rules, statement-Preserves, exec-Preserves, modify-Preserves,
  bind-Preserves_post,
}
use nightowl.Schema.{Database, Alert, Tier, EscalationEvent, Message, Metric}
use nightowl.Escalation.Engine.{
  EscalationError, listing_alerts, list_pending_escalation_alerts, update_alert_escalation_tier,
  create_escalation_event, escalation_event, get_escalation_policy, escalate, process_alert_under,
  process_alerts, process_tenant,
}

ok-injective :
    (xs ys : List Alert) → ◌≡◌ {A = Result SqlError (List Alert)} (ok xs) (ok ys) → xs ≡ ys
ok-injective xs ys h = cc

module _ (n : ℕ) (tier : Option ℕ) (events : ℕ) where
  -- An alert with the number `n` is not firing, and has the given tier.
  abbrev IsQuietRow : Alert → Type 0
  IsQuietRow a = a.id ≡ n → (a.status ≢ "firing") × (a.current_escalation_tier ≡ tier)

  -- The alert `n` is not firing, has the given tier and the given number of events.
  abbrev pub IsQuiet : Database → Type 0
  IsQuiet db =
      All IsQuietRow db.alerts × (count (λ e. e.alert_id == n) db.escalation_events ≡ events)

  abbrev IsOther : Alert → Type 0
  IsOther a = a.id ≢ n

  update-IsQuietRow :
      (b t now : ℕ) (xs : List Alert)
      → b ≢ n
      → All IsQuietRow xs
      → All IsQuietRow (
          update
            (λ a. a.id == b)
            (λ a. record a { current_escalation_tier = some t; updated_at = now })
            xs)
  update-IsQuietRow b t now [] other h = tt
  update-IsQuietRow b t now (a ∷ xs) other (ha, h) = elim (Bool-cases (a.id == b)) [
    | inl hit ↦ rw hit (
      (λ e. absurd (other (sym ((==_iff a.id b).0 hit) ∙ e))),
      update-IsQuietRow b t now xs other h,
    )
    | inr miss ↦ rw miss (ha, update-IsQuietRow b t now xs other h)
  ]

  count-append_other :
      (e : EscalationEvent) (xs : List EscalationEvent)
      → e.alert_id ≢ n
      → count (λ e. e.alert_id == n) (xs ++ e ∷ []) ≡ count (λ e. e.alert_id == n) xs
  count-append_other e [] other = ground arith
  count-append_other e (x ∷ xs) other = omega (arith, count-append_other e xs other)

  update_tier-Preserves : (b t : ℕ) → b ≢ n → Preserves IsQuiet (update_alert_escalation_tier b t)
  unfolding update_alert_escalation_tier
  update_tier-Preserves b t other =
      exec-Preserves _ (λ db h. (update-IsQuietRow b t db.now db.alerts other h.0, h.1))

  create_event-Preserves :
      (b policy t : ℕ) (via : String)
      → b ≢ n
      → Preserves IsQuiet (create_escalation_event b policy t via)
  unfolding create_escalation_event
  create_event-Preserves b policy t via other = statement-Preserves _ (λ db h. (
    h.0,
    count-append_other (escalation_event db.next_id db.now b policy t via) db.escalation_events
          other
        ∙ h.1,
  ))

  policy-Preserves : (id : ℕ) → Preserves IsQuiet (get_escalation_policy id)
  unfolding get_escalation_policy
  policy-Preserves id = search preserves_rules

  announce-Preserves :
      (message : Message) (metric : Metric)
      → Preserves IsQuiet (
          modify {E = EscalationError} (λ db. record db {
            published = db.published ++ message ∷ [];
            metrics = db.metrics ++ metric ∷ [];
          }))
  announce-Preserves message metric = modify-Preserves _ (λ db h. h)

  escalate-Preserves :
      (a : Alert) (policy : ℕ) (next : Option Tier)
      → IsOther a
      → Preserves IsQuiet (escalate a policy next)
  unfolding escalate
  escalate-Preserves a policy none other = search preserves_rules
  escalate-Preserves a policy (some next) other =
      search (preserves_rules, update_tier-Preserves, create_event-Preserves, announce-Preserves)

  process_alert_under-Preserves :
      (a : Alert) (policy : Option ℕ) → IsOther a → Preserves IsQuiet (process_alert_under a policy)
  unfolding process_alert_under
  process_alert_under-Preserves a none other = search preserves_rules
  process_alert_under-Preserves a (some policy) other =
      search (preserves_rules, policy-Preserves, escalate-Preserves)

  process_alerts-Preserves :
      (xs : List Alert) → All IsOther xs → Preserves IsQuiet (process_alerts xs)
  unfolding process_alerts
  process_alerts-Preserves [] h = search preserves_rules
  process_alerts-Preserves (a ∷ xs) (ha, h) =
      let ih : Preserves IsQuiet (process_alerts xs) = process_alerts-Preserves xs h in
      search (preserves_rules, process_alert_under-Preserves)

  pending-IsOther :
      (xs : List Alert)
      → All IsQuietRow xs
      → All IsOther
          (select (λ a. str_eq a.status "firing" && not (is_none a.escalation_policy_id)) xs)
  pending-IsOther [] h = tt
  pending-IsOther (a ∷ xs) (ha, h) = elim (Bool-cases (str_eq a.status "firing")) [
    | inr quiet ↦ rw quiet (pending-IsOther xs h)
    | inl firing ↦ elim (Bool-cases (not (is_none a.escalation_policy_id))) [
      | inl has ↦
          rw (firing, has)
            ((λ e. (ha e).0 ((eq_iff a.status "firing").0 firing)), pending-IsOther xs h)
      | inr lacks ↦ rw (firing, lacks) (pending-IsOther xs h)
    ]
  ]

  list_pending-Preserves : Preserves IsQuiet list_pending_escalation_alerts
  unfolding list_pending_escalation_alerts
  list_pending-Preserves = search preserves_rules

  list_pending-IsOther :
      (c : Conn Database) (xs : List Alert)
      → IsQuiet c.db
      → (wrap listing_alerts list_pending_escalation_alerts c).0 ≡ ok xs
      → All IsOther xs
  unfolding list_pending_escalation_alerts
  list_pending-IsOther c xs h e =
      rw
        (sym (
          ok-injective _ xs
            (query-eq-ok _ c (wrap-eq-ok listing_alerts list_pending_escalation_alerts c e))))
        (All-sort_by IsOther _ _ (pending-IsOther c.db.alerts h.0))

  -- Whatever fails during a poll, an alert that is not firing when the poll begins keeps its tier
  -- and gets no escalation event.
  pub process_tenant-IsQuiet : (c : Conn Database) → IsQuiet c.db → IsQuiet (process_tenant c).1.db
  unfolding process_tenant
  process_tenant-IsQuiet c h =
      (bind-Preserves_post (All IsOther) (wrap listing_alerts list_pending_escalation_alerts)
          (λ xs. process_alerts xs) (search (preserves_rules, list_pending-Preserves))
          list_pending-IsOther process_alerts-Preserves).keep
        c h
