-- ===== src/AlertGroup/Rules.antt =====
-- Creating, changing and deleting grouping rules, and reading rules and groups
-- (pkg/alertgroup/store.go, sqlc/queries/alertgroup/alert_grouping_rules.sql). What a deletion does
-- to groups and alerts is in migrations/tenant/000023 and 000024.
use nightowl.Base.{
  ℕ, suc, String, str_eq, Bool, true, false, not, List, [], ◌∷◌, ◌++◌, Option, none, some, ◌==◌,
  leb, if◌then◌else◌, find, select, update, sort_with,
}
use nightowl.Sql.{Sql, SqlError, no_rows, Result, ok, err, statement, query, exec}
use nightowl.Schema.{Database, AlertGroup, GroupingRule, Matcher}
use nightowl.Roster.Store.{one_row}
use nightowl.AlertGroup.Store.{rule_le}

-- CreateRuleRequest and UpdateRuleRequest, which have the same fields.
pub record RuleRequest : Type 0 where
  pub name : String
  pub description : Option String
  pub position : ℕ
  pub is_enabled : Option Bool
  pub matchers : List Matcher
  pub group_by : List String

-- `isEnabled := true`, unless the request says otherwise.
abbrev enabled_or_true : Option Bool → Bool
enabled_or_true none = true
enabled_or_true (some enabled) = enabled

unfoldable pub new_rule : ℕ → ℕ → RuleRequest → GroupingRule
new_rule id now r = record {
  id = id;
  name = r.name;
  description = r.description;
  position = r.position;
  is_enabled = enabled_or_true r.is_enabled;
  matchers = some r.matchers;
  group_by = r.group_by;
  created_at = now;
  updated_at = now;
}

unfoldable pub create_rule : RuleRequest → Sql Database SqlError GroupingRule
create_rule r = statement λ db.
    let rule = new_rule db.next_id db.now r in
    (
      ok rule,
      record db { next_id = suc db.next_id; grouping_rules = db.grouping_rules ++ rule ∷ [] },
    )

abbrev pub overwrite_rule : ℕ → RuleRequest → GroupingRule → GroupingRule
overwrite_rule now r rule = record rule {
  name = r.name;
  description = r.description;
  position = r.position;
  is_enabled = enabled_or_true r.is_enabled;
  matchers = some r.matchers;
  group_by = r.group_by;
  updated_at = now;
}

unfoldable pub update_rule_row :
    ℕ → RuleRequest → Database → Result SqlError GroupingRule × Database
update_rule_row id r db = elim (find (λ rule. rule.id == id) db.grouping_rules) [
  | none ↦ (err no_rows, db)
  | some old ↦ (
    ok (overwrite_rule db.now r old),
    record db {
      grouping_rules = update (λ rule. rule.id == id) (overwrite_rule db.now r) db.grouping_rules;
    },
  )
]

unfoldable pub update_rule : ℕ → RuleRequest → Sql Database SqlError GroupingRule
update_rule id r = statement (update_rule_row id r)

unfoldable pub get_rule : ℕ → Sql Database SqlError GroupingRule
get_rule id = query (λ db. one_row (find (λ rule. rule.id == id) db.grouping_rules))

unfoldable pub list_rules : (String → String → Bool) → Sql Database SqlError (List GroupingRule)
list_rules name_le = query (λ db. ok (sort_with (rule_le name_le) db.grouping_rules))

-- Whether an alert's group is one of the rule.
abbrev group_is_of : ℕ → Option AlertGroup → Bool
group_is_of rule_id none = false
group_is_of rule_id (some g) = g.rule_id == rule_id

abbrev pub grouped_by : ℕ → List AlertGroup → Option ℕ → Bool
grouped_by rule_id groups none = false
grouped_by rule_id groups (some group_id) =
    group_is_of rule_id (find (λ g. g.id == group_id) groups)

-- The groups of the rule go with it, and their alerts have none.
unfoldable pub delete_rule : ℕ → Sql Database SqlError (Unit {0})
delete_rule id = exec λ db. record db {
  grouping_rules = select (λ rule. not (rule.id == id)) db.grouping_rules;
  alert_groups = select (λ g. not (g.rule_id == id)) db.alert_groups;
  alerts =
      update (λ a. grouped_by id db.alert_groups a.alert_group_id)
        (λ a. record a { alert_group_id = none }) db.alerts;
}

-- GroupResponse: a group with the name of its rule.
pub record GroupResponse : Type 0 where
  pub group : AlertGroup
  pub rule_name : String

-- JOIN alert_grouping_rules r ON r.id = g.rule_id
abbrev joined : AlertGroup → Option GroupingRule → List GroupResponse
joined g none = []
joined g (some rule) = record { group = g; rule_name = rule.name } ∷ []

unfoldable pub with_rules : List GroupingRule → List AlertGroup → List GroupResponse
with_rules rules [] = []
with_rules rules (g ∷ gs) =
    joined g (find (λ rule. rule.id == g.rule_id) rules) ++ with_rules rules gs

abbrev has_status : String → AlertGroup → Bool
has_status status g = if str_eq status "" then true else str_eq g.status status

abbrev last_first : AlertGroup → AlertGroup → Bool
last_first g h = leb h.last_alert_at g.last_alert_at

unfoldable pub list_groups : String → Sql Database SqlError (List GroupResponse)
list_groups status = query λ db. ok (
    with_rules db.grouping_rules
      (sort_with last_first (select (has_status status) db.alert_groups)))

abbrev first_response : List GroupResponse → Result SqlError GroupResponse
first_response [] = err no_rows
first_response (g ∷ gs) = ok g

unfoldable pub get_group : ℕ → Sql Database SqlError GroupResponse
get_group id =
    query
      λ db. first_response (with_rules db.grouping_rules (select (λ g. g.id == id) db.alert_groups))
