-- ===== src/Alerts/Intake.antt =====
-- Creating an alert, grouping it and enriching it gives no alert an escalation policy.
use nightowl.Base.{ℕ, String, List, [], ◌∷◌, Option, none, some}
use nightowl.Sql.{Sql, SqlError, Result, ok, err}
use nightowl.Sql.Preserves.{
  Preserves, preserves_rules, bind-Preserves, attempt-Preserves, if-Preserves, pure-Preserves,
}
use nightowl.Schema.{Database, Alert, GroupingRule, LabelMap, RawJson, kb_hit}
use nightowl.AlertGroup.Store.{list_enabled_rules}
use nightowl.AlertGroup.Matching.{parse_labels}
use nightowl.AlertGroup.Evaluator.{
  grouped_of, group_under, evaluate_rules, evaluate_labels, evaluate_listed, evaluate,
}
use nightowl.Alerts.Normalize.{Externals, NormalizedAlert}
use nightowl.Alerts.Dedup.{AlertError}
use nightowl.Alerts.Enrich.{
  EnrichResult, no_result, match_by_fingerprint, match_by_text_search, apply_or, enrich_by_bookowl,
  enrich_by_text, enrich,
}
use nightowl.Alerts.Webhook.{
  AlertResponse, with_enrichment, enriched, enrich_created, create_new, after_check,
  create_or_dedup, add_metric,
}
use nightowl.Alerts.Unassigned.{
  IsUnassigned, create-IsUnassigned, group-IsUnassigned, assign-IsUnassigned, apply-IsUnassigned,
  cache-IsUnassigned, check-IsUnassigned, metric-IsUnassigned, occurrence-IsUnassigned,
}

module _ (env : Externals) where
  under-IsUnassigned :
      (rule : GroupingRule) (alert : ℕ) (severity : String) (labels : LabelMap)
      → Preserves IsUnassigned (group_under env.compile env.sha256_hex rule alert severity labels)
  unfolding group_under
  under-IsUnassigned rule alert severity labels =
      search (preserves_rules, group-IsUnassigned, assign-IsUnassigned)

  rules-IsUnassigned :
      (rules : List GroupingRule) (alert : ℕ) (severity : String) (labels : LabelMap)
      → Preserves IsUnassigned
          (evaluate_rules env.compile env.sha256_hex rules alert severity labels)
  unfolding evaluate_rules
  rules-IsUnassigned [] alert severity labels = search preserves_rules
  rules-IsUnassigned (rule ∷ rules) alert severity labels =
      if-Preserves _ _ _
        (λ _.
          bind-Preserves _ _ (attempt-Preserves _ (under-IsUnassigned rule alert severity labels))
            (λ r. pure-Preserves (grouped_of env.compile env.sha256_hex rule.id r)))
        (λ _. rules-IsUnassigned rules alert severity labels)

  labels-IsUnassigned :
      (rules : List GroupingRule) (alert : ℕ) (severity : String) (labels : Option LabelMap)
      → Preserves IsUnassigned
          (evaluate_labels env.compile env.sha256_hex rules alert severity labels)
  unfolding evaluate_labels
  labels-IsUnassigned rules alert severity none = search preserves_rules
  labels-IsUnassigned rules alert severity (some labels) =
      rules-IsUnassigned rules alert severity labels

  listed-IsUnassigned :
      (rules : Result SqlError (List GroupingRule)) (alert : ℕ) (severity : String) (raw : RawJson)
      → Preserves IsUnassigned (evaluate_listed env.compile env.sha256_hex rules alert severity raw)
  unfolding evaluate_listed
  listed-IsUnassigned (err e) alert severity raw = search preserves_rules
  listed-IsUnassigned (ok []) alert severity raw = search preserves_rules
  listed-IsUnassigned (ok (rule ∷ rules)) alert severity raw =
      labels-IsUnassigned (rule ∷ rules) alert severity (parse_labels raw)

  enabled-IsUnassigned : Preserves IsUnassigned (list_enabled_rules env.name_le)
  unfolding list_enabled_rules
  enabled-IsUnassigned = search preserves_rules

  evaluate-IsUnassigned :
      (alert : ℕ) (severity : String) (raw : RawJson)
      → Preserves IsUnassigned (evaluate env.compile env.sha256_hex env.name_le alert severity raw)
  unfolding evaluate
  evaluate-IsUnassigned alert severity raw =
      search (preserves_rules, enabled-IsUnassigned, listed-IsUnassigned)

  apply_or-IsUnassigned :
      (id : ℕ) (r : EnrichResult) (next : Sql Database AlertError EnrichResult)
      → Preserves IsUnassigned next
      → Preserves IsUnassigned (apply_or env id r next)
  unfolding apply_or
  apply_or-IsUnassigned id r next h =
      if-Preserves _ _ _
        (λ _.
          bind-Preserves _ _ (attempt-Preserves _ (apply-IsUnassigned id r))
            (λ _. pure-Preserves r))
        (λ _. h)

  owl-IsUnassigned :
      (id : ℕ) (text : String) → Preserves IsUnassigned (enrich_by_bookowl env id text)
  unfolding enrich_by_bookowl
  owl-IsUnassigned id text = apply_or-IsUnassigned id _ _ (pure-Preserves no_result)

  by_text-IsUnassigned : (text : String) → Preserves IsUnassigned (match_by_text_search env text)
  unfolding match_by_text_search
  by_text-IsUnassigned text = search preserves_rules

  matched-IsUnassigned :
      (fingerprint : String) → Preserves IsUnassigned (match_by_fingerprint env fingerprint)
  unfolding match_by_fingerprint
  matched-IsUnassigned fingerprint = search preserves_rules

  text-IsUnassigned : (id : ℕ) (text : String) → Preserves IsUnassigned (enrich_by_text env id text)
  unfolding enrich_by_text
  text-IsUnassigned id text =
      search (preserves_rules, by_text-IsUnassigned, apply_or-IsUnassigned, owl-IsUnassigned)

  enrich-IsUnassigned :
      (id : ℕ) (fingerprint title : String) (description : Option String)
      → Preserves IsUnassigned (enrich env id fingerprint title description)
  unfolding enrich
  enrich-IsUnassigned id fingerprint title description =
      search (preserves_rules, matched-IsUnassigned, apply_or-IsUnassigned, text-IsUnassigned)

  module _ (schema : String) where
    enriched-IsUnassigned :
        (resp : AlertResponse) (r : EnrichResult)
        → Preserves IsUnassigned (enriched env schema resp r)
    unfolding enriched
    enriched-IsUnassigned resp r =
        if-Preserves _ _ _
          (λ _.
            bind-Preserves (add_metric kb_hit) _ (metric-IsUnassigned kb_hit)
              (λ _. pure-Preserves (with_enrichment resp r)))
          (λ _. pure-Preserves resp)

    enrich_created-IsUnassigned :
        (n : NormalizedAlert) (row : Alert)
        → Preserves IsUnassigned (enrich_created env schema n row)
    unfolding enrich_created
    enrich_created-IsUnassigned n row =
        search (preserves_rules, evaluate-IsUnassigned, enrich-IsUnassigned, enriched-IsUnassigned)

    new-IsUnassigned : (n : NormalizedAlert) → Preserves IsUnassigned (create_new env schema n)
    unfolding create_new
    new-IsUnassigned n =
        search
          (preserves_rules, create-IsUnassigned, cache-IsUnassigned, enrich_created-IsUnassigned)

    after_check-IsUnassigned :
        (n : NormalizedAlert) (r : Result AlertError (Option ℕ))
        → Preserves IsUnassigned (after_check env schema n r)
    unfolding after_check
    after_check-IsUnassigned n (ok none) = new-IsUnassigned n
    after_check-IsUnassigned n (ok (some id)) = search (preserves_rules, occurrence-IsUnassigned)
    after_check-IsUnassigned n (err e) = new-IsUnassigned n

    pub dedup-IsUnassigned :
        (n : NormalizedAlert) → Preserves IsUnassigned (create_or_dedup env schema n)
    unfolding create_or_dedup
    dedup-IsUnassigned n =
        if-Preserves _ _ _
          (λ _.
            bind-Preserves _ _ (attempt-Preserves _ (check-IsUnassigned schema n.fingerprint))
              (after_check-IsUnassigned n))
          (λ _. new-IsUnassigned n)
