-- ===== src/Escalation/DryRun.antt =====
-- The simulation of a policy (handleDryRun of pkg/escalation/handler.go).
use nightowl.Base.{ℕ, ◌+◌, String, List, [], ◌∷◌, Option, get_elem?}
use mathlib.Core.Option
use nightowl.Base.Words.{to_int64}
use nightowl.Schema.{Tier, EscalationPolicy}
use nightowl.Escalation.Engine.{parse_tiers, cumulative_timeout}

pub record DryRunStep : Type 0 where
  pub tier : ℕ
  pub timeout_minutes : ℕ
  pub cumulative_minutes : ℕ
  pub notify_via : List String
  pub targets : List String
  pub action : String

-- The loop over the tiers, with the sum so far; its last sum is the total time.
unfoldable pub simulate : ℕ → List Tier → List DryRunStep × ℕ
simulate cumulative [] = ([], cumulative)
simulate cumulative (t ∷ ts) =
    let sum = to_int64 (cumulative + t.timeout_minutes) in
    let rest = simulate sum ts in
    (
      record {
        tier = t.tier;
        timeout_minutes = t.timeout_minutes;
        cumulative_minutes = sum;
        notify_via = t.notify_via;
        targets = t.targets;
        action = "notify";
      }
          ∷ rest.0,
      rest.1,
    )

unfoldable pub dry_run : EscalationPolicy → List DryRunStep × ℕ
unfolding simulate
dry_run policy = simulate 0 (parse_tiers policy.tiers)

-- What a step says of a tier.
abbrev pub step_of : Tier → ℕ → DryRunStep
step_of t sum = record {
  tier = t.tier;
  timeout_minutes = t.timeout_minutes;
  cumulative_minutes = sum;
  notify_via = t.notify_via;
  targets = t.targets;
  action = "notify";
}

-- The engine's sum, added to what was summed before.
abbrev pub step_at : ℕ → List Tier → ℕ → Option DryRunStep
step_at before tiers i =
    Option.map (λ t. step_of t (to_int64 (before + cumulative_timeout tiers i))) (get_elem? tiers i)
