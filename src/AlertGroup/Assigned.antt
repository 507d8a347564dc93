-- ===== src/AlertGroup/Assigned.antt =====
-- What the evaluation of an alert does (Evaluate of pkg/alertgroup/evaluator.go).
use nightowl.Base.{
  ℕ, ◌+◌, ◌≡◌, refl, ◌∙◌, inl, inr, Bool, String, eq_iff, List, [], ◌∷◌, Option, none, some, find,
  select, update, arith, Bool-cases, sort_with, ◌==◌, find-append_new,
}
use nightowl.Sql.{ok, pure, attempt, statement, query, exec, healthy, ◌>>=◌}
use nightowl.Schema.{Database, AlertGroup, GroupingRule, LabelMap, RawJson}
use nightowl.AlertGroup.Matching.{
  parse_labels, extract_group_by_labels, compute_group_key_hash, compute_group_title,
}
use nightowl.AlertGroup.Store.{
  is_group, new_group, upsert_group, find_or_create_group, set_alert_group, count_in_group,
  assign_alert_to_group, case_severity, list_enabled_rules, rule_le,
}
use nightowl.AlertGroup.Evaluator.{
  Grouped, group_under, evaluate_rules, evaluate_labels, evaluate_listed, evaluate,
}
use nightowl.AlertGroup.Chosen.{takes, IsChosen, first_match-IsChosen}

module _ {A : Type 0} where
  -- An update that keeps what `p` and `key` see keeps what `p` finds, up to the same key.
  find-update :
      (p q : A → Bool) (key : A → ℕ) (f : A → A) (xs : List A) (x : A)
      → ((y : A) → p (f y) ≡ p y)
      → ((y : A) → key (f y) ≡ key y)
      → find p xs ≡ some x
      → (y : A) × (find p (update q f xs) ≡ some y) × (key y ≡ key x)
  find-update p q key f [] x keeps same h = cc
  find-update p q key f (y ∷ ys) x keeps same h = elim (Bool-cases (p y)) [
    | inl hit ↦ elim (Bool-cases (q y)) [
      | inl changed ↦ (f y, rw (changed, keeps y, hit), same y ∙ same_key (rw hit at h))
      | inr left ↦ (y, rw (left, hit), same_key (rw hit at h))
    ]
    | inr miss ↦
        let (z, found, e) = find-update p q key f ys x keeps same (rw miss at h) in
        elim (Bool-cases (q y)) [
          | inl changed ↦ (z, rw (changed, keeps y, miss) found, e)
          | inr left ↦ (z, rw (left, miss) found, e)
        ]
  ]
    where
      same_key : some y ≡ some x → key y ≡ key x
      same_key e = cc

module _ (sha256_hex : String → String) where
  -- The rule's group with the hash of the labels that the rule groups by holds the alert, and the
  -- alerts are otherwise as they were.
  abbrev pub IsAssigned : GroupingRule → LabelMap → ℕ → ℕ → Database → Database → Type 0
  IsAssigned rule labels alert_id group_id before after =
      (g : AlertGroup) × (find
          (is_group rule.id
            (compute_group_key_hash sha256_hex (extract_group_by_labels rule.group_by labels)))
          after.alert_groups
        ≡ some g)
      × (g.id ≡ group_id)
      × (after.alerts
          ≡ update (λ a. a.id == alert_id)
              (λ a. record a { alert_group_id = some group_id; updated_at = before.now })
              before.alerts)

  -- What an evaluation answers and leaves behind, by the rule that it takes.
  abbrev pub IsOutcome :
      LabelMap → ℕ → Database → Database → Option GroupingRule → Option Grouped → Type 0
  IsOutcome labels alert_id before after none r = (r ≡ none) × (after ≡ before)
  IsOutcome labels alert_id before after (some rule) r =
      (group_id : ℕ) × (r ≡ some (record { group_id = group_id; rule_id = rule.id }))
      × IsAssigned rule labels alert_id group_id before after

upsert-run :
    (rule : ℕ) (hash title : String) (key : LabelMap) (db : Database) (o : Option AlertGroup)
    → find (is_group rule hash) db.alert_groups ≡ o
    → (group_id : ℕ) × (g : AlertGroup) × (after : Database) × (upsert_group rule hash title key o
          db
        ≡ (ok group_id, after))
      × (find (is_group rule hash) after.alert_groups ≡ some g)
      × (g.id ≡ group_id)
      × (after.alerts ≡ db.alerts)
      × (after.now ≡ db.now)
upsert-run rule hash title key db none h = (
  db.next_id,
  new_group db.next_id db.now rule hash title key,
  _,
  refl,
  find-append_new (is_group rule hash) db.alert_groups
      (new_group db.next_id db.now rule hash title key) h (ground (arith, eq_iff hash hash)),
  refl,
  refl,
  refl,
)
upsert-run rule hash title key db (some g) h =
    let (y, found, e) =
      find-update (is_group rule hash) (is_group rule hash) (λ g. g.id)
        (λ g. record g { last_alert_at = db.now; updated_at = db.now }) db.alert_groups g
        (λ x. refl) (λ x. refl) h in
    (g.id, y, _, refl, found, e, refl, refl)

module _ (compile : String → Option (String → Bool)) (sha256_hex : String → String) where
  group_under-run :
      (rule : GroupingRule) (alert_id : ℕ) (severity : String) (labels : LabelMap) (db : Database)
      → (group_id : ℕ) × (after : Database) × (group_under compile sha256_hex rule alert_id severity
            labels
            (healthy db)
          ≡ (ok group_id, healthy after))
        × IsAssigned sha256_hex rule labels alert_id group_id db after
  unfolding group_under find_or_create_group assign_alert_to_group set_alert_group count_in_group
      statement exec ◌>>=◌ pure
  group_under-run rule alert_id severity labels db =
      let key : LabelMap = extract_group_by_labels rule.group_by labels in
      let hash : String = compute_group_key_hash sha256_hex key in
      let (group_id, g, made, run, found, e, same, now) =
        upsert-run rule.id hash (compute_group_title key) key db
          (find (is_group rule.id hash) db.alert_groups) refl in
      let counted : AlertGroup → AlertGroup = λ g. record g {
        alert_count = g.alert_count + 1;
        max_severity = case_severity severity g.max_severity;
        last_alert_at = made.now;
        updated_at = made.now;
      } in
      let after : Database = record made {
        alerts =
            update (λ a. a.id == alert_id)
              (λ a. record a { alert_group_id = some group_id; updated_at = made.now }) made.alerts;
        alert_groups = update (λ g. g.id == group_id) counted made.alert_groups;
      } in
      let (y, found', e') =
        find-update (is_group rule.id hash) (λ g. g.id == group_id) (λ g. g.id) counted
          made.alert_groups g (λ x. refl) (λ x. refl) found in
      (group_id, after, rw run refl, (y, found', e' ∙ e, rw (same, now) refl))

  evaluate_rules-run :
      (rules : List GroupingRule) (alert_id : ℕ) (severity : String) (labels : LabelMap)
      (db : Database)
      → (r : Option Grouped) × (after : Database) × (evaluate_rules compile sha256_hex rules
            alert_id severity labels
            (healthy db)
          ≡ (ok r, healthy after))
        × IsOutcome sha256_hex labels alert_id db after (find (takes compile labels) rules) r
  unfolding evaluate_rules attempt ◌>>=◌ pure
  evaluate_rules-run [] alert_id severity labels db = (none, db, refl, (refl, refl))
  evaluate_rules-run (rule ∷ rules) alert_id severity labels db =
      elim (Bool-cases (takes compile labels rule)) [
        | inl hit ↦
            let (group_id, after, run, assigned) =
              group_under-run rule alert_id severity labels db in
            (
              some (record { group_id = group_id; rule_id = rule.id }),
              after,
              rw hit (rw run refl),
              rw hit (group_id, refl, assigned),
            )
        | inr miss ↦
            let (r, after, run, outcome) = evaluate_rules-run rules alert_id severity labels db in
            (r, after, rw miss run, rw miss outcome)
      ]

  evaluate_listed-run :
      (rules : List GroupingRule) (alert_id : ℕ) (severity : String) (labels : LabelMap)
      (raw : RawJson) (db : Database)
      → parse_labels raw ≡ some labels
      → (r : Option Grouped) × (after : Database) × (evaluate_listed compile sha256_hex
            (ok rules)
            alert_id
            severity
            raw
            (healthy db)
          ≡ (ok r, healthy after))
        × IsOutcome sha256_hex labels alert_id db after (find (takes compile labels) rules) r
  unfolding evaluate_listed evaluate_labels pure
  evaluate_listed-run [] alert_id severity labels raw db h = (none, db, refl, (refl, refl))
  evaluate_listed-run (rule ∷ rules) alert_id severity labels raw db h =
      let (r, after, run, outcome) =
        evaluate_rules-run (rule ∷ rules) alert_id severity labels db in
      (r, after, rw h run, outcome)

  -- Where nothing fails and the labels decode, an evaluation takes an enabled rule whose matchers
  -- all accept the labels, at the least position of such rules: the rule has a group with the hash
  -- of the labels that it groups by, the alert is assigned to that group, the other alerts are as
  -- they were, and the group and the rule are the answer. If no enabled rule matches, the answer is
  -- none and nothing changes.
  pub evaluate_assigns :
      (name_le : String → String → Bool) (alert_id : ℕ) (severity : String) (raw : RawJson)
      (labels : LabelMap) (db : Database)
      → parse_labels raw ≡ some labels
      → (o : Option GroupingRule) × (r : Option Grouped) × (after : Database) × (evaluate compile
            sha256_hex name_le alert_id severity raw
            (healthy db)
          ≡ (ok r, healthy after))
        × IsChosen compile labels db.grouping_rules o
        × IsOutcome sha256_hex labels alert_id db after o r
  unfolding evaluate list_enabled_rules attempt query statement ◌>>=◌
  evaluate_assigns name_le alert_id severity raw labels db h =
      let rules : List GroupingRule =
        sort_with (rule_le name_le) (select (λ r. r.is_enabled) db.grouping_rules) in
      let (r, after, run, outcome) = evaluate_listed-run rules alert_id severity labels raw db h in
      (
        find (takes compile labels) rules,
        r,
        after,
        run,
        first_match-IsChosen compile labels name_le db.grouping_rules _ refl,
        outcome,
      )
