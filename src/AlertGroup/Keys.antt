-- ===== src/AlertGroup/Keys.antt =====
-- Which alerts share a group.
use nightowl.Base.{String, List, [], ◌∷◌, ◌≡◌, refl, ap, ◌∙◌, All, ℕ, Option, Bool}
use nightowl.Sql.{pure, ◌>>=◌, ◌>>◌}
use nightowl.Schema.{LabelMap, GroupingRule}
use nightowl.AlertGroup.Matching.{
  label_of, put, extract_into, compute_group_key_hash, compute_group_title,
}
use nightowl.AlertGroup.Store.{find_or_create_group, assign_alert_to_group}
use nightowl.AlertGroup.Evaluator.{group_under}

-- The label maps agree on the keys.
abbrev pub Agree : LabelMap → LabelMap → List String → Type 0
Agree xs ys = All (λ key. label_of key xs ≡ label_of key ys)

extract_into-Agree :
    (result : LabelMap) (keys : List String) (xs ys : LabelMap)
    → Agree xs ys keys
    → extract_into result keys xs ≡ extract_into result keys ys
extract_into-Agree result [] xs ys h = refl
extract_into-Agree result (key ∷ keys) xs ys (e, h) =
    extract_into-Agree (put key (label_of key xs) result) keys xs ys h
    ∙ ap (λ v. extract_into (put key v result) keys ys) e

-- Under a rule, an alert is grouped by the rule's labels alone: alerts whose labels agree on them,
-- a missing label counting as empty, are sent to the same group in the same way.
group_under_labels :
    (compile : String → Option (String → Bool)) (sha256_hex : String → String) (rule : GroupingRule)
    (alert : ℕ) (severity : String) (xs ys : LabelMap)
    → Agree xs ys rule.group_by
    → group_under compile sha256_hex rule alert severity xs
      ≡ group_under compile sha256_hex rule alert severity ys
unfolding group_under
group_under_labels compile sha256_hex rule alert severity xs ys h =
    ap
      (λ key.
        find_or_create_group rule.id (compute_group_key_hash sha256_hex key)
          (compute_group_title key) key
        >>= λ group_id. assign_alert_to_group alert group_id severity >> pure group_id)
      (extract_into-Agree [] rule.group_by xs ys h)
