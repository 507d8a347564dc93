-- ===== src/AlertGroup/Store.antt =====
-- The statements of the grouping store (pkg/alertgroup/store.go,
-- sqlc/queries/alertgroup/alert_grouping_rules.sql).
use nightowl.Base.{
  ℕ, suc, ◌+◌, String, str_eq, Bool, ◌&&◌, ◌||◌, not, List, [], ◌∷◌, ◌++◌, Option, none, some,
  is_none, ltb, ◌==◌, if◌then◌else◌, find, select, update, sort_by, sort_with,
}
use nightowl.Sql.{Sql, SqlError, Result, ok, statement, query, exec, ◌>>◌}
use nightowl.Schema.{Database, Alert, AlertGroup, GroupingRule, LabelMap}

-- `name_le` is the order of texts in the database.
abbrev pub rule_le : (String → String → Bool) → GroupingRule → GroupingRule → Bool
rule_le name_le a b =
    ltb a.position b.position || ((a.position == b.position) && name_le a.name b.name)

unfoldable pub list_enabled_rules :
    (String → String → Bool) → Sql Database SqlError (List GroupingRule)
list_enabled_rules name_le =
    query (λ db. ok (sort_with (rule_le name_le) (select (λ r. r.is_enabled) db.grouping_rules)))

unfoldable pub list_ungrouped_alerts : Sql Database SqlError (List Alert)
list_ungrouped_alerts = query λ db. ok (
    sort_by (λ a. a.created_at)
      (select (λ a. is_none a.alert_group_id && str_eq a.status "firing") db.alerts))

abbrev pub is_group : ℕ → String → AlertGroup → Bool
is_group rule_id key_hash g = (g.rule_id == rule_id) && str_eq g.group_key_hash key_hash

-- The defaults are those of the table.
abbrev pub new_group : ℕ → ℕ → ℕ → String → String → LabelMap → AlertGroup
new_group id now rule_id key_hash title key_labels = record {
  id = id;
  rule_id = rule_id;
  group_key_hash = key_hash;
  group_key_labels = key_labels;
  status = "active";
  title = title;
  alert_count = 0;
  max_severity = "info";
  first_alert_at = now;
  last_alert_at = now;
  created_at = now;
  updated_at = now;
}

-- `INSERT ... ON CONFLICT (rule_id, group_key_hash) DO UPDATE ... RETURNING id`
abbrev pub upsert_group :
    ℕ → String → String → LabelMap → Option AlertGroup → Database → Result SqlError ℕ × Database
upsert_group rule_id key_hash title key_labels none db = (
  ok db.next_id,
  record db {
    next_id = suc db.next_id;
    alert_groups =
        db.alert_groups ++ new_group db.next_id db.now rule_id key_hash title key_labels ∷ [];
  },
)
upsert_group rule_id key_hash title key_labels (some g) db = (
  ok g.id,
  record db {
    alert_groups =
        update (is_group rule_id key_hash)
          (λ g. record g { last_alert_at = db.now; updated_at = db.now }) db.alert_groups;
  },
)

unfoldable pub find_or_create_group : ℕ → String → String → LabelMap → Sql Database SqlError ℕ
find_or_create_group rule_id key_hash title key_labels = statement λ db.
    upsert_group rule_id key_hash title key_labels
      (find (is_group rule_id key_hash) db.alert_groups) db

-- The `CASE` on the new alert's severity.
abbrev pub case_severity : String → String → String
case_severity severity max_severity =
    if str_eq severity "critical"
    then "critical"
    else if str_eq severity "major" && not (str_eq max_severity "critical")
    then "major"
    else if str_eq severity "warning"
        && not (str_eq max_severity "critical" || str_eq max_severity "major")
    then "warning"
    else max_severity

unfoldable pub set_alert_group : ℕ → ℕ → Sql Database SqlError (Unit {0})
set_alert_group alert_id group_id = exec λ db. record db {
  alerts =
      update (λ a. a.id == alert_id)
        (λ a. record a { alert_group_id = some group_id; updated_at = db.now }) db.alerts;
}

unfoldable pub count_in_group : ℕ → String → Sql Database SqlError (Unit {0})
count_in_group group_id severity = exec λ db. record db {
  alert_groups =
      update (λ g. g.id == group_id)
        (λ g. record g {
          alert_count = g.alert_count + 1;
          max_severity = case_severity severity g.max_severity;
          last_alert_at = db.now;
          updated_at = db.now;
        })
        db.alert_groups;
}

unfoldable pub assign_alert_to_group : ℕ → ℕ → String → Sql Database SqlError (Unit {0})
assign_alert_to_group alert_id group_id severity = do
  set_alert_group alert_id group_id
  count_in_group group_id severity
