-- ===== src/AlertGroup/Evaluator.antt =====
-- Assigning alerts to groups (pkg/alertgroup/evaluator.go).
use nightowl.Base.{ℕ, suc, String, Bool, List, [], ◌∷◌, Option, none, some, if◌then◌else◌}
use nightowl.Sql.{Sql, SqlError, Result, ok, err, pure, ◌>>=◌, ◌>>◌, attempt}
use nightowl.Schema.{Database, Alert, GroupingRule, LabelMap, RawJson}
use nightowl.AlertGroup.Matching.{
  parse_matchers, parse_labels, match_alert, extract_group_by_labels, compute_group_key_hash,
  compute_group_title,
}
use nightowl.AlertGroup.Store.{
  list_enabled_rules, list_ungrouped_alerts, find_or_create_group, assign_alert_to_group,
}

-- AlertGroupResult of a match.
pub record Grouped : Type 0 where
  pub group_id : ℕ
  pub rule_id : ℕ

module _ (compile : String → Option (String → Bool)) (sha256_hex : String → String) where
  -- Finds or creates the group of the labels under a rule, and assigns the alert to it.
  unfoldable pub group_under : GroupingRule → ℕ → String → LabelMap → Sql Database SqlError ℕ
  group_under rule alert_id severity labels =
      let key = extract_group_by_labels rule.group_by labels in
      do
        group_id ←
            find_or_create_group rule.id (compute_group_key_hash sha256_hex key)
              (compute_group_title key) key
        assign_alert_to_group alert_id group_id severity
        pure group_id

  -- The result of the first rule that matches; an error leaves the alert without one.
  abbrev pub grouped_of : ℕ → Result SqlError ℕ → Option Grouped
  grouped_of rule_id (ok group_id) = some (record { group_id = group_id; rule_id = rule_id })
  grouped_of rule_id (err e) = none

  unfoldable pub evaluate_rules :
      List GroupingRule → ℕ → String → LabelMap → Sql Database SqlError (Option Grouped)
  evaluate_rules [] alert_id severity labels = pure none
  evaluate_rules (rule ∷ rules) alert_id severity labels =
      if match_alert compile (parse_matchers rule.matchers) labels
      then (attempt (group_under rule alert_id severity labels) >>= λ r.
          pure (grouped_of rule.id r))
      else evaluate_rules rules alert_id severity labels

  unfoldable pub evaluate_labels :
      List GroupingRule → ℕ → String → Option LabelMap → Sql Database SqlError (Option Grouped)
  evaluate_labels rules alert_id severity none = pure none
  evaluate_labels rules alert_id severity (some labels) =
      evaluate_rules rules alert_id severity labels

  unfoldable pub evaluate_listed :
      Result SqlError (List GroupingRule)
      → ℕ
      → String
      → RawJson
      → Sql Database SqlError (Option Grouped)
  evaluate_listed (err e) alert_id severity raw = pure none
  evaluate_listed (ok []) alert_id severity raw = pure none
  evaluate_listed (ok (rule ∷ rules)) alert_id severity raw =
      evaluate_labels (rule ∷ rules) alert_id severity (parse_labels raw)

  -- Evaluate: it never fails.
  unfoldable pub evaluate :
      (String → String → Bool) → ℕ → String → RawJson → Sql Database SqlError (Option Grouped)
  evaluate name_le alert_id severity raw = do
    rules ← attempt (list_enabled_rules name_le)
    evaluate_listed rules alert_id severity raw

  abbrev pub count_grouped : Result SqlError ℕ → ℕ → ℕ
  count_grouped (ok group_id) grouped = suc grouped
  count_grouped (err e) grouped = grouped

  -- One alert of BackfillRule, with the number of alerts grouped so far.
  unfoldable pub backfill_alert :
      GroupingRule → Alert → Option LabelMap → ℕ → Sql Database SqlError ℕ
  backfill_alert rule a none grouped = pure grouped
  backfill_alert rule a (some labels) grouped =
      if match_alert compile (parse_matchers rule.matchers) labels
      then (attempt (group_under rule a.id a.severity labels) >>= λ r.
          pure (count_grouped r grouped))
      else pure grouped

  unfoldable pub backfill_alerts : GroupingRule → List Alert → ℕ → Sql Database SqlError ℕ
  backfill_alerts rule [] grouped = pure grouped
  backfill_alerts rule (a ∷ alerts) grouped = do
    so_far ← backfill_alert rule a (parse_labels a.labels) grouped
    backfill_alerts rule alerts so_far

  unfoldable pub backfill_rule : GroupingRule → Sql Database SqlError ℕ
  backfill_rule rule =
      if rule.is_enabled
      then (list_ungrouped_alerts >>= λ alerts. backfill_alerts rule alerts 0)
      else pure 0
