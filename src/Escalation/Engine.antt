-- ===== src/Escalation/Engine.antt =====
-- One poll of the escalation engine (pkg/escalation/engine.go, escalation.go) with the statements
-- that it sends (sqlc/queries/alerts, sqlc/queries/escalation).
use nightowl.Base.{
  ℕ, zero, suc, ◌+◌, ◌*◌, ◌-◌, String, str_eq, Bool, false, ◌&&◌, not, List, [], ◌∷◌, ◌++◌, Option,
  none, some, ltb, leb, ◌==◌, if◌then◌else◌, is_none, find, select, update, sort_by, get_elem?,
}
use mathlib.Core.Option
use nightowl.Base.Words.{to_int32, to_int64, less32, less64}
use nightowl.Sql.{
  Sql, SqlError, ok, pure, gets, modify, statement, query, exec, ◌>>=◌, ◌>>◌, attempt, wrap,
}
use nightowl.Schema.{
  Database, Alert, Tier, EscalationPolicy, EscalationEvent, alert_escalated, alert_ack, escalated,
}
use nightowl.Roster.Store.{one_row}

pub data EscalationError : Type 0 where
  getting_policy updating_tier creating_event listing_alerts : SqlError → EscalationError

-- A column that does not decode has no tiers.
abbrev pub parse_tiers : Option (List Tier) → List Tier
parse_tiers none = []
parse_tiers (some tiers) = tiers

unfoldable pub get_escalation_policy : ℕ → Sql Database SqlError EscalationPolicy
get_escalation_policy id = query (λ db. one_row (find (λ p. p.id == id) db.escalation_policies))

unfoldable pub list_pending_escalation_alerts : Sql Database SqlError (List Alert)
list_pending_escalation_alerts = query λ db. ok (
    sort_by (λ a. a.created_at)
      (select (λ a. str_eq a.status "firing" && not (is_none a.escalation_policy_id)) db.alerts))

unfoldable pub update_alert_escalation_tier : ℕ → ℕ → Sql Database SqlError (Unit {0})
update_alert_escalation_tier id tier = exec λ db. record db {
  alerts =
      update (λ a. a.id == id)
        (λ a. record a { current_escalation_tier = some tier; updated_at = db.now }) db.alerts;
}

abbrev pub escalation_event : ℕ → ℕ → ℕ → ℕ → ℕ → String → EscalationEvent
escalation_event id now alert_id policy_id tier notify_via = record {
  id = id;
  alert_id = alert_id;
  policy_id = policy_id;
  tier = tier;
  action = "escalate";
  notify_method = some notify_via;
  created_at = now;
}

unfoldable pub create_escalation_event : ℕ → ℕ → ℕ → String → Sql Database SqlError EscalationEvent
create_escalation_event alert_id policy_id tier notify_via = statement λ db.
    let event = escalation_event db.next_id db.now alert_id policy_id tier notify_via in
    (
      ok event,
      record db {
        next_id = suc db.next_id;
        escalation_events = db.escalation_events ++ event ∷ [];
      },
    )

-- `int32(t.Tier) > currentTier`
unfoldable pub is_above : ℕ → Tier → Bool
is_above current t = less32 current (to_int32 t.tier)

-- The index of the first tier above the current one.
unfoldable pub next_tier_index : ℕ → List Tier → Option ℕ
next_tier_index current [] = none
next_tier_index current (t ∷ ts) =
    let rest = Option.map suc (next_tier_index current ts) in
    if is_above current t then some 0 else rest

-- tiers[len(tiers)-1].Tier, of the tiers after a first one.
abbrev pub last_tier : ℕ → List Tier → ℕ
last_tier tier [] = tier
last_tier tier (t ∷ ts) = last_tier t.tier ts

abbrev pub repeats : Option ℕ → Bool
repeats none = false
repeats (some n) = less32 0 n

abbrev pub or_repeat : EscalationPolicy → ℕ → Tier → List Tier → Option ℕ → Option ℕ
or_repeat policy current first rest (some i) = some i
or_repeat policy current first rest none =
    if repeats policy.repeat_count && not (less32 current (to_int32 (last_tier first.tier rest)))
    then some 0
    else none

-- The sum of the timeouts up to and including the tier at an index.
unfoldable pub cumulative_timeout : List Tier → ℕ → ℕ
cumulative_timeout [] i = 0
cumulative_timeout (t ∷ ts) zero = to_int64 t.timeout_minutes
cumulative_timeout (t ∷ ts) (suc i) = to_int64 (t.timeout_minutes + cumulative_timeout ts i)

abbrev pub current_tier : Alert → ℕ
current_tier a = elim a.current_escalation_tier [ none ↦ 0 | some tier ↦ tier ]

-- `time.Duration(n) * time.Minute`, in nanoseconds.
abbrev pub minutes : ℕ → ℕ
minutes n = to_int64 (n * 60000000000)

abbrev at_most : ℕ → ℕ → ℕ
at_most limit n = if ltb limit n then limit else n

-- time.Since, which stops at the greatest and the least duration, in nanoseconds.
unfoldable pub elapsed : ℕ → ℕ → ℕ
elapsed now created =
    if leb created now
    then at_most 9223372036854775807 ((now - created) * 1000000000)
    else 18446744073709551616 - at_most 9223372036854775808 ((created - now) * 1000000000)

-- The test of the time elapsed since the alert was created.
abbrev pub if_due : ℕ → Alert → List Tier → Option ℕ → Option Tier
if_due now a tiers none = none
if_due now a tiers (some i) =
    if less64 (elapsed now a.created_at) (minutes (cumulative_timeout tiers i))
    then none
    else get_elem? tiers i

-- The tier that the alert is escalated to now, if any.
unfoldable pub next_escalation : ℕ → Alert → EscalationPolicy → List Tier → Option Tier
unfolding next_tier_index cumulative_timeout
next_escalation now a policy [] = none
next_escalation now a policy (t ∷ ts) =
    if_due now a (t ∷ ts)
      (or_repeat policy (current_tier a) t ts (next_tier_index (current_tier a) (t ∷ ts)))

abbrev first_or_empty : List String → String
first_or_empty [] = ""
first_or_empty (s ∷ rest) = s

-- Update, event, message, metric.
unfoldable pub escalate : Alert → ℕ → Option Tier → Sql Database EscalationError (Unit {0})
escalate a policy_id none = pure tt
escalate a policy_id (some next) = do
  wrap updating_tier (update_alert_escalation_tier a.id (to_int32 next.tier))
  event ←
      wrap creating_event (
        create_escalation_event a.id policy_id (to_int32 next.tier)
          (first_or_empty next.notify_via))
  modify (λ db. record db {
    published = db.published ++ alert_escalated a.id policy_id next.tier a.title a.severity ∷ [];
    metrics = db.metrics ++ escalated next.tier ∷ [];
  })

unfoldable pub process_alert_under : Alert → Option ℕ → Sql Database EscalationError (Unit {0})
process_alert_under a none = pure tt
process_alert_under a (some policy_id) = do
  policy ← wrap getting_policy (get_escalation_policy policy_id)
  now ← gets (λ db. db.now)
  escalate a policy_id (next_escalation now a policy (parse_tiers policy.tiers))

abbrev pub process_alert : Alert → Sql Database EscalationError (Unit {0})
process_alert a = process_alert_under a a.escalation_policy_id

-- An alert that fails does not stop the others.
unfoldable pub process_alerts : List Alert → Sql Database EscalationError (Unit {0})
process_alerts [] = pure tt
process_alerts (a ∷ rest) = do done ← attempt (process_alert a); process_alerts rest

-- processTenant, on a connection with the tenant's schema selected.
unfoldable pub process_tenant : Sql Database EscalationError (Unit {0})
process_tenant = do
  alerts ← wrap listing_alerts list_pending_escalation_alerts
  process_alerts alerts

-- PublishAck
unfoldable pub publish_ack : ℕ → Sql Database EscalationError (Unit {0})
publish_ack alert_id =
    modify (λ db. record db { published = db.published ++ alert_ack alert_id ∷ [] })
