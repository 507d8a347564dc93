-- ===== src/AlertGroup/Chosen.antt =====
-- Which rule the evaluation of an alert takes (Evaluate of pkg/alertgroup/evaluator.go).
use nightowl.Base.{
  ◌≤◌, ◌≡◌, refl, sym, inl, inr, Bool, true, false, String, List, [], ◌∷◌, Option, none, some, All,
  Any, find, select, arith, Bool-cases, insert_with, sort_with,
}
use nightowl.Base.Sorting.{All-insert_with, All-sort_with, sort_with-All}
use nightowl.Schema.{GroupingRule, LabelMap, Matcher}
use nightowl.AlertGroup.Matching.{label_of, parse_matchers, accepts, match_alert}
use nightowl.AlertGroup.Store.{rule_le}

-- The rules stand in the order of their positions.
abbrev IsOrdered : List GroupingRule → Type 0
IsOrdered [] = Unit
IsOrdered (r ∷ rs) = All (λ s. r.position ≤ s.position) rs × IsOrdered rs

module _ (name_le : String → String → Bool) where
  ahead : (r s : GroupingRule) → rule_le name_le r s ≡ true → r.position ≤ s.position
  ahead r s h = ground (arith, h)

  after : (r s : GroupingRule) → rule_le name_le r s ≡ false → s.position ≤ r.position
  after r s h = ground (arith, h)

  further :
      (r s : GroupingRule) (rs : List GroupingRule)
      → r.position ≤ s.position
      → All (λ t. s.position ≤ t.position) rs
      → All (λ t. r.position ≤ t.position) rs
  further r s [] h hs = tt
  further r s (t ∷ rs) h (ht, hs) = (omega (arith, h, ht), further r s rs h hs)

  insert-IsOrdered :
      (r : GroupingRule) (rs : List GroupingRule)
      → IsOrdered rs
      → IsOrdered (insert_with (rule_le name_le) r rs)
  unfolding insert_with
  insert-IsOrdered r [] h = (tt, tt)
  insert-IsOrdered r (s ∷ rs) (hs, h) = elim (Bool-cases (rule_le name_le r s)) [
    | inl first ↦ rw first ((ahead r s first, further r s rs (ahead r s first) hs), (hs, h))
    | inr later ↦ rw later (
      All-insert_with (λ t. s.position ≤ t.position) (rule_le name_le) r rs (after r s later) hs,
      insert-IsOrdered r rs h,
    )
  ]

  sort-IsOrdered : (rs : List GroupingRule) → IsOrdered (sort_with (rule_le name_le) rs)
  unfolding sort_with
  sort-IsOrdered [] = tt
  sort-IsOrdered (r ∷ rs) = insert-IsOrdered r (sort_with (rule_le name_le) rs) (sort-IsOrdered rs)

module _ {A : Type 0} (p : A → Bool) where
  find-All :
      (P : A → Type 0) (xs : List A) {x : A} → find p xs ≡ some x → All P xs → P x × (p x ≡ true)
  find-All P [] h all = cc
  find-All P (y ∷ ys) {x} h (hy, all) = elim (Bool-cases (p y)) [
    | inl hit ↦ rw (sym (some-eq y x (rw hit at h))) (hy, hit)
    | inr miss ↦ find-All P ys (rw miss at h) all
  ]
    where
      some-eq : (a b : A) → some a ≡ some b → a ≡ b
      some-eq a b e = cc

  find-none : (xs : List A) → find p xs ≡ none → All (λ x. p x ≡ false) xs
  find-none [] h = tt
  find-none (y ∷ ys) h = elim (Bool-cases (p y)) [
    | inl hit ↦ absurd (some≢none (rw hit at h))
    | inr miss ↦ (miss, find-none ys (rw miss at h))
  ]
    where
      some≢none : ◌≡◌ {A = Option A} (some y) none → ⊥
      some≢none e = cc

  select-All : (P : A → Type 0) (xs : List A) → All P (select p xs) → All (λ x. p x ≡ true → P x) xs
  select-All P [] h = tt
  select-All P (y ∷ ys) h = elim (Bool-cases (p y)) [
    | inl hit ↦
        let (hy, hs) : P y × All P (select p ys) = rw hit at h in ((λ _. hy), select-All P ys hs)
    | inr miss ↦ ((λ hit. absurd (both hit miss)), select-All P ys (rw miss at h))
  ]
    where
      both : {b : Bool} → b ≡ true → b ≡ false → ⊥
      both h k = cc

  weaken :
      (y : A) (ys zs : List A)
      → All (λ x. Any (λ z. x ≡ z) ys × (p x ≡ true)) zs
      → All (λ x. Any (λ z. x ≡ z) (y ∷ ys) × (p x ≡ true)) zs
  weaken y ys [] h = tt
  weaken y ys (z ∷ zs) ((at, hit), h) = ((inr at, hit), weaken y ys zs h)

  selected : (xs : List A) → All (λ x. Any (λ z. x ≡ z) xs × (p x ≡ true)) (select p xs)
  selected [] = tt
  selected (y ∷ ys) = elim (Bool-cases (p y)) [
    | inl hit ↦ rw hit ((inl refl, hit), weaken y ys (select p ys) (selected ys))
    | inr miss ↦ rw miss (weaken y ys (select p ys) (selected ys))
  ]

find-least :
    (p : GroupingRule → Bool) (rs : List GroupingRule) {r : GroupingRule}
    → IsOrdered rs
    → find p rs ≡ some r
    → All (λ s. p s ≡ true → r.position ≤ s.position) rs
find-least p [] ordered h = tt
find-least p (s ∷ rs) {r} (hs, ordered) h = elim (Bool-cases (p s)) [
  | inl hit ↦
      let e : s.position ≡ r.position = same s r (rw hit at h) in
      ((λ _. omega (arith, e)), behind rs e hs)
  | inr miss ↦ ((λ hit. absurd (both hit miss)), find-least p rs ordered (rw miss at h))
]
  where
    both : {b : Bool} → b ≡ true → b ≡ false → ⊥
    both h k = cc

    same : (a b : GroupingRule) → some a ≡ some b → a.position ≡ b.position
    same a b e = cc

    behind :
        (ts : List GroupingRule)
        → s.position ≡ r.position
        → All (λ t. s.position ≤ t.position) ts
        → All (λ t. p t ≡ true → r.position ≤ t.position) ts
    behind [] e h = tt
    behind (t ∷ ts) e (ht, h) = ((λ _. omega (arith, e, ht)), behind ts e h)

module _ (compile : String → Option (String → Bool)) (labels : LabelMap) where
  -- Every matcher of the rule accepts the labels.
  abbrev pub Matches : GroupingRule → Type 0
  Matches r =
      All (λ m. accepts compile m (label_of m.key labels) ≡ true) (parse_matchers r.matchers)

  -- An enabled rule that matches, at the least position of all such rules; or there is none.
  abbrev pub IsChosen : List GroupingRule → Option GroupingRule → Type 0
  IsChosen rules none = All (λ s. s.is_enabled ≡ true → Matches s → ⊥) rules
  IsChosen rules (some r) =
      Any (λ s. r ≡ s) rules
      × (r.is_enabled ≡ true)
      × Matches r
      × All (λ s. s.is_enabled ≡ true → Matches s → r.position ≤ s.position) rules

  abbrev pub takes : GroupingRule → Bool
  takes r = match_alert compile (parse_matchers r.matchers) labels

  accepted-All :
      (ms : List Matcher)
      → match_alert compile ms labels ≡ true
      → All (λ m. accepts compile m (label_of m.key labels) ≡ true) ms
  unfolding match_alert
  accepted-All [] h = tt
  accepted-All (m ∷ ms) h = elim (Bool-cases (accepts compile m (label_of m.key labels))) [
    | inl hit ↦ (hit, accepted-All ms (rw hit at h))
    | inr miss ↦ absurd (false≢true (rw miss at h))
  ]
    where
      false≢true : false ≡ true → ⊥
      false≢true e = cc

  All-accepted :
      (ms : List Matcher)
      → All (λ m. accepts compile m (label_of m.key labels) ≡ true) ms
      → match_alert compile ms labels ≡ true
  unfolding match_alert
  All-accepted [] h = refl
  All-accepted (m ∷ ms) (hit, h) = rw hit (All-accepted ms h)

  by_match :
      (P : GroupingRule → Type 0) (rules : List GroupingRule)
      → All (λ s. s.is_enabled ≡ true → takes s ≡ true → P s) rules
      → All (λ s. s.is_enabled ≡ true → Matches s → P s) rules
  by_match P [] h = tt
  by_match P (s ∷ rules) (hs, h) = (
    (λ enabled hit. hs enabled (All-accepted (parse_matchers s.matchers) hit)),
    by_match P rules h,
  )

  refused :
      (rules : List GroupingRule)
      → All (λ s. takes s ≡ false) rules
      → All (λ s. takes s ≡ true → ⊥) rules
  refused [] h = tt
  refused (s ∷ rules) (hs, h) = ((λ hit. both hit hs), refused rules h)
    where
      both : {b : Bool} → b ≡ true → b ≡ false → ⊥
      both h k = cc

  -- The first match in the order of the statement is the chosen rule.
  pub first_match-IsChosen :
      (name_le : String → String → Bool) (rules : List GroupingRule) (o : Option GroupingRule)
      → find takes (sort_with (rule_le name_le) (select (λ r. r.is_enabled) rules)) ≡ o
      → IsChosen rules o
  first_match-IsChosen name_le rules none h =
      by_match (λ s. ⊥) rules
        (select-All (λ r. r.is_enabled) (λ s. takes s ≡ true → ⊥) rules
          (sort_with-All (λ s. takes s ≡ true → ⊥) (rule_le name_le)
            (select (λ r. r.is_enabled) rules)
            (refused (sort_with (rule_le name_le) (select (λ r. r.is_enabled) rules)) (
              find-none takes (sort_with (rule_le name_le) (select (λ r. r.is_enabled) rules)) h))))
  first_match-IsChosen name_le rules (some r) h =
      let enabled : List GroupingRule = select (λ r. r.is_enabled) rules in
      let ((at, on), hit) =
        find-All takes (λ x. Any (λ z. x ≡ z) rules × (x.is_enabled ≡ true))
          (sort_with (rule_le name_le) enabled) h
          (All-sort_with (λ x. Any (λ z. x ≡ z) rules × (x.is_enabled ≡ true)) (rule_le name_le)
            enabled (selected (λ r. r.is_enabled) rules)) in
      (
        at,
        on,
        accepted-All (parse_matchers r.matchers) hit,
        by_match (λ s. r.position ≤ s.position) rules
            (select-All (λ r. r.is_enabled) (λ s. takes s ≡ true → r.position ≤ s.position) rules
              (sort_with-All (λ s. takes s ≡ true → r.position ≤ s.position) (rule_le name_le)
                enabled
                (find-least takes (sort_with (rule_le name_le) enabled)
                  (sort-IsOrdered name_le enabled) h))),
      )
