-- ===== src/AlertGroup/Handler.antt =====
-- The HTTP handlers of grouping rules and groups (pkg/alertgroup/handler.go), with an audit writer
-- and an evaluator. The list of a group's alerts is left out: it reads `SELECT *` by position, and
-- the columns stand in another order in the migrations than in sqlc/schema.
use nightowl.Base.{ℕ, String, Bool, List, Option, some}
use nightowl.Sql.{SqlError, Result, ok, err, pure, modify, ◌>>=◌, attempt}
use nightowl.Schema.{GroupingRule}
use nightowl.Http.{
  answered, internal_error, not_found_or, Handled, with_parsed, with_body, or_internal,
  or_not_found,
}
use nightowl.Alerts.Store.{with_audit}
use nightowl.AlertGroup.Evaluator.{backfill_rule}
use nightowl.AlertGroup.Rules.{
  RuleRequest, GroupResponse, create_rule, update_rule, get_rule, list_rules, delete_rule,
  list_groups, get_group,
}

module _ (compile : String → Option (String → Bool)) (sha256_hex : String → String) where
  -- The audit entry of a change, and the backfill, whose failure is only logged.
  unfoldable pub audit_and_backfill : String → GroupingRule → Handled GroupingRule
  audit_and_backfill action rule = do
    logged ← modify (with_audit action "alert_grouping_rule" rule.id)
    done ← attempt (backfill_rule compile sha256_hex rule)
    pure (answered rule)

  abbrev pub created_rule : Result SqlError GroupingRule → Handled GroupingRule
  created_rule (ok rule) = audit_and_backfill "create" rule
  created_rule (err e) = pure internal_error

  abbrev pub updated_rule : Result SqlError GroupingRule → Handled GroupingRule
  updated_rule (ok rule) = audit_and_backfill "update" rule
  updated_rule (err e) = pure (not_found_or (some e) internal_error)

  unfoldable pub handle_create_rule : Option RuleRequest → Handled GroupingRule
  handle_create_rule body = with_body body (λ req. do r ← attempt (create_rule req); created_rule r)

  module _ (parse_id : String → Option ℕ) where
    unfoldable pub handle_update_rule : String → Option RuleRequest → Handled GroupingRule
    handle_update_rule id body =
        with_parsed (parse_id id)
          (λ n. with_body body (λ req. do r ← attempt (update_rule n req); updated_rule r))

module _ (name_le : String → String → Bool) where
  unfoldable pub handle_list_rules : Handled (List GroupingRule)
  handle_list_rules = do r ← attempt (list_rules name_le); pure (or_internal r)

unfoldable pub handle_list_groups : String → Handled (List GroupResponse)
handle_list_groups status = do r ← attempt (list_groups status); pure (or_internal r)

module _ (parse_id : String → Option ℕ) where
  unfoldable pub handle_get_rule : String → Handled GroupingRule
  handle_get_rule id =
      with_parsed (parse_id id) (λ n. do r ← attempt (get_rule n); pure (or_not_found r))

  abbrev pub deleted_rule : ℕ → Result SqlError (Unit {0}) → Handled (Unit {0})
  deleted_rule id (ok _) =
      modify (with_audit "delete" "alert_grouping_rule" id) >>= λ _. pure (answered tt)
  deleted_rule id (err e) = pure internal_error

  unfoldable pub handle_delete_rule : String → Handled (Unit {0})
  handle_delete_rule id =
      with_parsed (parse_id id) (λ n. do r ← attempt (delete_rule n); deleted_rule n r)

  unfoldable pub handle_get_group : String → Handled GroupResponse
  handle_get_group id =
      with_parsed (parse_id id) (λ n. do r ← attempt (get_group n); pure (or_not_found r))
