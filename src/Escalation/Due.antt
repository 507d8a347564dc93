-- ===== src/Escalation/Due.antt =====
-- When an alert is escalated, in the minutes and the numbers of its policy.
use nightowl.Base.{
  ℕ, zero, suc, ◌+◌, ◌*◌, ◌≤◌, ◌<◌, ◌≡◌, refl, sym, ap, ◌∙◌, ◌⊎◌, inl, inr, true, false, List, [],
  ◌∷◌, Option, some, ltb, ltb→lt, get_elem?, take, All, arith,
}
use nightowl.Base.Words.{less64, less32_of_small}
use nightowl.Schema.{Alert, Tier, EscalationPolicy}
use nightowl.Escalation.Engine.{
  is_above, cumulative_timeout, current_tier, elapsed, minutes, repeats, next_escalation,
}
use nightowl.Escalation.Schedule.{NoneAbove, IsTurn, next_escalation-IsTurn}

-- The sum of all timeouts of tiers.
abbrev pub total_timeout : List Tier → ℕ
total_timeout [] = 0
total_timeout (t ∷ ts) = t.timeout_minutes + total_timeout ts

-- Numbers and timeouts that are not negative and do not overflow: tiers below 2 ^ 31, and a sum of
-- timeouts that is below 2 ^ 63 nanoseconds.
abbrev pub IsMild : List Tier → Type 0
IsMild tiers =
    All (λ t. t.tier < 2147483648) tiers × (total_timeout tiers * 60000000000 < 9223372036854775808)

-- The tier at index `i` is above `current`, and none before it is; or none is, the policy repeats,
-- and it is the first.
abbrev pub IsNext : EscalationPolicy → ℕ → List Tier → ℕ → Tier → Type 0
IsNext policy current tiers i next =
    ((current < next.tier) × All (λ t. t.tier ≤ current) (take i tiers))
    ⊎ ((i ≡ 0) × (repeats policy.repeat_count ≡ true) × All (λ t. t.tier ≤ current) tiers)

ltb-le : (a b : ℕ) → ltb a b ≡ false → b ≤ a
ltb-le a b h = ground arith

below_of_small :
    (current : ℕ) (t : Tier)
    → current < 2147483648
    → t.tier < 2147483648
    → is_above current t ≡ false
    → t.tier ≤ current
unfolding is_above
below_of_small current t h k below =
    ltb-le current t.tier (sym (less32_of_small current t.tier h k) ∙ below)

above_of_small :
    (current : ℕ) (t : Tier)
    → current < 2147483648
    → t.tier < 2147483648
    → is_above current t ≡ true
    → current < t.tier
unfolding is_above
above_of_small current t h k above =
    ltb→lt current t.tier (sym (less32_of_small current t.tier h k) ∙ above)

none_above :
    (current : ℕ) (tiers : List Tier)
    → current < 2147483648
    → All (λ t. t.tier < 2147483648) tiers
    → NoneAbove current tiers
    → All (λ t. t.tier ≤ current) tiers
none_above current [] h small below = tt
none_above current (t ∷ ts) h (k, small) (b, below) =
    (below_of_small current t h k b, none_above current ts h small below)

All-take : (P : Tier → Type 0) (i : ℕ) (tiers : List Tier) → All P tiers → All P (take i tiers)
All-take P zero tiers h = tt
All-take P (suc i) [] h = tt
All-take P (suc i) (t ∷ ts) (ht, h) = (ht, All-take P i ts h)

some-eq : (a b : Tier) → ◌≡◌ {A = Option Tier} (some a) (some b) → a ≡ b
some-eq a b e = cc

All-get_elem :
    (P : Tier → Type 0) (i : ℕ) (tiers : List Tier) (t : Tier)
    → get_elem? tiers i ≡ some t
    → All P tiers
    → P t
All-get_elem P i [] t at h = cc
All-get_elem P zero (x ∷ xs) t at (hx, h) = rw (sym (some-eq x t at)) hx
All-get_elem P (suc i) (x ∷ xs) t at (hx, h) = All-get_elem P i xs t at h

total-take : (i : ℕ) (tiers : List Tier) → total_timeout (take i tiers) ≤ total_timeout tiers
total-take zero tiers = omega arith
total-take (suc i) [] = omega arith
total-take (suc i) (t ∷ ts) = omega (arith, total-take i ts)

-- Without an overflow the engine's sum is the sum of the timeouts.
cumulative-total :
    (tiers : List Tier) (i : ℕ)
    → total_timeout tiers < 18446744073709551616
    → cumulative_timeout tiers i ≡ total_timeout (take (suc i) tiers)
unfolding cumulative_timeout
cumulative-total [] i h = refl
cumulative-total (t ∷ ts) zero h = omega (arith, h)
cumulative-total (t ∷ ts) (suc i) h =
    let ih = cumulative-total ts i (omega (arith, h)) in
    let less = total-take (suc i) ts in omega (arith, h, ih, less)

-- A poll that finds a duration elapsed comes no earlier.
due_at :
    (now created sum : ℕ)
    → sum * 60000000000 < 9223372036854775808
    → less64 (elapsed now created) (minutes sum) ≡ false
    → created + sum * 60 ≤ now
unfolding less64 elapsed
due_at now created sum mild due = ground (arith, mild, due)

turn-IsNext :
    (policy : EscalationPolicy) (current : ℕ) (tiers : List Tier) (i : ℕ) (next : Tier)
    → current < 2147483648
    → All (λ t. t.tier < 2147483648) tiers
    → get_elem? tiers i ≡ some next
    → IsTurn policy current tiers i
    → IsNext policy current tiers i next
turn-IsNext policy current tiers i next h small at (inl (t, at', above, before)) = inl (
  above_of_small current next h (All-get_elem (λ t. t.tier < 2147483648) i tiers next at small)
      (ap (is_above current) (some-eq next t (sym at ∙ at')) ∙ above),
  none_above current (take i tiers) h (All-take (λ t. t.tier < 2147483648) i tiers small) before,
)
turn-IsNext policy current tiers i next h small at (inr (first, again, before)) =
    inr (first, again, none_above current tiers h small before)

-- An alert is escalated only to the first tier above its current one, or, if there is none and the
-- policy repeats, to the first tier; and not before the timeouts of all tiers up to that one have
-- passed since the alert was created. This is for tiers below 2 ^ 31 and for timeouts whose sum is
-- below 2 ^ 63 nanoseconds.
pub next_escalation_due :
    (now : ℕ) (a : Alert) (policy : EscalationPolicy) (tiers : List Tier) (next : Tier)
    → IsMild tiers
    → current_tier a < 2147483648
    → next_escalation now a policy tiers ≡ some next
    → (i : ℕ) × (get_elem? tiers i ≡ some next)
      × (a.created_at + total_timeout (take (suc i) tiers) * 60 ≤ now)
      × IsNext policy (current_tier a) tiers i next
next_escalation_due now a policy tiers next (small, mild) current h =
    let (i, at, due, turn) = next_escalation-IsTurn now a policy tiers next h in
    let sum = cumulative-total tiers i (omega (arith, mild)) in
    let less = total-take (suc i) tiers in
    (
      i,
      at,
      due_at now a.created_at (total_timeout (take (suc i) tiers)) (omega (arith, mild, less))
          (rw sum at due),
      turn-IsNext policy (current_tier a) tiers i next current small at turn,
    )
