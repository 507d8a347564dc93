-- ===== src/Tests/Policies.antt =====
-- Runs of the escalation engine.
use mathlib.Core.Option
use nightowl.Base.{
  ℕ, suc, take, ◌+◌, ◌*◌, ◌≤◌, ◌≡◌, refl, true, false, [], ◌∷◌, none, some, get_elem?, arith,
}
use nightowl.Schema.{Database, Alert}
use nightowl.Escalation.Engine.{
  next_escalation, next_tier_index, cumulative_timeout, is_above, elapsed, process_tenant,
}
use nightowl.Base.Words.{less32, less64}
use nightowl.Escalation.Due.{IsNext, total_timeout, next_escalation_due}
use nightowl.Escalation.Quiet.{IsQuiet, process_tenant-IsQuiet}
use nightowl.Tests.Data.{empty, alert_with, tier, tiers, policy_with}

abbrev firing : Alert
firing = alert_with 3 "firing" (some 9) (some 1)

abbrev past : Alert
past = alert_with 3 "firing" (some 9) (some 2)

due : next_escalation 1000 firing (policy_with none) tiers ≡ some (tier 2 10)
unfolding next_escalation next_tier_index cumulative_timeout is_above less32 less64 elapsed
due = refl

next_escalation_due_example :
    (i : ℕ) × (get_elem? tiers i ≡ some (tier 2 10))
    × (0 + total_timeout (take (suc i) tiers) * 60 ≤ 1000)
    × IsNext (policy_with none) 1 tiers i (tier 2 10)
next_escalation_due_example =
    next_escalation_due 1000 firing (policy_with none) tiers (tier 2 10)
      ((ground arith, (ground arith, tt)), ground arith) (ground arith) due

-- A timeout whose nanoseconds overflow is over at once.
overflow :
    next_escalation 60 firing (policy_with none) (tier 2 200000000 ∷ []) ≡ some (tier 2 200000000)
unfolding next_escalation next_tier_index cumulative_timeout is_above less32 less64 elapsed
overflow = refl

abbrev mixed : Database
mixed = record empty {
  alerts =
      alert_with 3 "firing" (some 9) (some 1) ∷ alert_with 4 "acknowledged" (some 9) (some 1) ∷ [];
  escalation_policies = policy_with none ∷ [];
}

process_tenant-IsQuiet_example :
    IsQuiet 4
      (some 1)
      0
      (process_tenant (record { db = mixed; faults = false ∷ false ∷ true ∷ [] })).1.db
process_tenant-IsQuiet_example =
    process_tenant-IsQuiet 4 (some 1) 0 (record { db = mixed; faults = false ∷ false ∷ true ∷ [] })
      (((λ e. absurd (omega (arith, e))), ((λ e. ((λ s. cc), refl)), tt)), refl)
