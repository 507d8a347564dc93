-- ===== src/Tests/Groups.antt =====
-- Runs of the grouping of alerts. The sample has a rule that is disabled in front of one that groups
-- by host, and behind it one that would also match.
use nightowl.Base.{◌≡◌, refl, String, Bool, true, false, [], ◌∷◌, Option, none, some}
use nightowl.Sql.{ok, healthy}
use nightowl.Schema.{Database, GroupingRule, LabelMap, object}
use nightowl.AlertGroup.Evaluator.{Grouped, evaluate}
use nightowl.AlertGroup.Chosen.{IsChosen}
use nightowl.AlertGroup.Assigned.{IsOutcome, evaluate_assigns}
use nightowl.Tests.Data.{empty, alert_with, rule}

abbrev on_db1 : LabelMap
on_db1 = ("host", "db1") ∷ ("disk", "sda") ∷ []

abbrev disabled : GroupingRule
disabled = record rule { id = 49; is_enabled = false }

abbrev catch_all : GroupingRule
catch_all = record rule { id = 51; position = 1; matchers = none; group_by = [] }

abbrev ruled : Database
ruled = record empty {
  grouping_rules = catch_all ∷ disabled ∷ rule ∷ [];
  alerts = alert_with 3 "firing" none (some 0) ∷ [];
}

abbrev no_regexp : String → Option (String → Bool)
no_regexp _ = none

evaluate_assigns_example :
    (o : Option GroupingRule) × (r : Option Grouped) × (after : Database) × (evaluate no_regexp
        (λ s. s)
        (λ s t. true)
        3
        "major"
        (object on_db1)
        (healthy ruled)
      ≡ (ok r, healthy after))
    × IsChosen no_regexp on_db1 ruled.grouping_rules o
    × IsOutcome (λ s. s) on_db1 3 ruled after o r
evaluate_assigns_example =
    evaluate_assigns no_regexp (λ s. s) (λ s t. true) 3 "major" (object on_db1) on_db1 ruled refl
