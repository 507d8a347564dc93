-- ===== src/Escalation/Schedule.antt =====
-- When an alert is escalated, and to which tier.
use nightowl.Base.{
  ℕ, zero, suc, ◌≡◌, refl, ◌⊎◌, inl, inr, true, false, List, [], ◌∷◌, Option, none, some, Bool,
  get_elem?, take, All, Bool-cases, Option-cases,
}
use mathlib.Core.Option
use nightowl.Base.Words.{less32, less64, to_int32}
use nightowl.Schema.{Alert, Tier, EscalationPolicy}
use nightowl.Escalation.Engine.{
  next_tier_index, last_tier, repeats, or_repeat, cumulative_timeout, current_tier, if_due,
  next_escalation, is_above, elapsed, minutes,
}

-- No tier of the list is above `current`.
abbrev pub NoneAbove : ℕ → List Tier → Type 0
NoneAbove current = All (λ t. is_above current t ≡ false)

-- The tier at index `i` is the first above `current`.
abbrev pub IsFirstAbove : ℕ → List Tier → ℕ → Type 0
IsFirstAbove current tiers i =
    (t : Tier) × (get_elem? tiers i ≡ some t)
    × (is_above current t ≡ true)
    × NoneAbove current (take i tiers)

abbrev Finds : ℕ → List Tier → Option ℕ → Type 0
Finds current tiers none = NoneAbove current tiers
Finds current tiers (some i) = IsFirstAbove current tiers i

later-Finds :
    (current : ℕ) (t : Tier) (ts : List Tier) (r : Option ℕ)
    → is_above current t ≡ false
    → Finds current ts r
    → Finds current (t ∷ ts) (Option.map suc r)
later-Finds current t ts none low h = (low, h)
later-Finds current t ts (some i) low (next, at, above, before) = (next, at, above, (low, before))

pub next_tier_index-Finds :
    (current : ℕ) (tiers : List Tier) → Finds current tiers (next_tier_index current tiers)
unfolding next_tier_index
next_tier_index-Finds current [] = tt
next_tier_index-Finds current (t ∷ ts) = elim (Bool-cases (is_above current t)) [
  | inl above ↦ rw above (t, refl, above, tt)
  | inr below ↦ rw below (
      later-Finds current t ts (next_tier_index current ts) below
        (next_tier_index-Finds current ts))
]

above-not_past :
    (current : ℕ) (tiers : List Tier) (i : ℕ) (t : Tier)
    → get_elem? tiers i ≡ some t
    → NoneAbove current tiers
    → is_above current t ≡ false
above-not_past current [] i t at past = cc
above-not_past current (x ∷ xs) zero t at (h, hs) = cc
above-not_past current (x ∷ xs) (suc i) t at (h, hs) = above-not_past current xs i t at hs

true-false : {b : Bool} → b ≡ true → b ≡ false → ⊥
true-false h k = cc

none-Finds :
    (current : ℕ) (tiers : List Tier) (r : Option ℕ)
    → NoneAbove current tiers
    → Finds current tiers r
    → r ≡ none
none-Finds current tiers none past h = refl
none-Finds current tiers (some i) past (t, at, above, _) =
    absurd (true-false above (above-not_past current tiers i t at past))

pub next_tier_index-none :
    (current : ℕ) (tiers : List Tier)
    → NoneAbove current tiers
    → next_tier_index current tiers ≡ none
next_tier_index-none current tiers past =
    none-Finds current tiers (next_tier_index current tiers) past
      (next_tier_index-Finds current tiers)

-- Why the tier at index `i` comes next: it is the first above the current one, or there is none
-- above and the policy repeats from its first tier.
abbrev pub IsTurn : EscalationPolicy → ℕ → List Tier → ℕ → Type 0
IsTurn policy current tiers i =
    IsFirstAbove current tiers i
    ⊎ ((i ≡ 0) × (repeats policy.repeat_count ≡ true) × NoneAbove current tiers)

abbrev Turns : EscalationPolicy → ℕ → List Tier → Option ℕ → Type 0
Turns policy current tiers none = NoneAbove current tiers × (repeats policy.repeat_count ≡ false)
Turns policy current tiers (some i) = IsTurn policy current tiers i

pub last-below :
    (current : ℕ) (tier : ℕ) (ts : List Tier)
    → less32 current (to_int32 tier) ≡ false
    → NoneAbove current ts
    → less32 current (to_int32 (last_tier tier ts)) ≡ false
unfolding is_above
last-below current tier [] low h = low
last-below current tier (t ∷ ts) low (h, hs) = last-below current t.tier ts h hs

or_repeat-Turns :
    (policy : EscalationPolicy) (current : ℕ) (t : Tier) (ts : List Tier) (r : Option ℕ)
    → Finds current (t ∷ ts) r
    → Turns policy current (t ∷ ts) (or_repeat policy current t ts r)
unfolding is_above
or_repeat-Turns policy current t ts (some i) h = inl h
or_repeat-Turns policy current t ts none (h, hs) = elim (Bool-cases (repeats policy.repeat_count)) [
  | inl again ↦ rw (again, last-below current t.tier ts h hs) (inr (refl, again, (h, hs)))
  | inr once ↦ rw once ((h, hs), once)
]

abbrev chosen_index : Alert → EscalationPolicy → Tier → List Tier → Option ℕ
chosen_index a policy t ts =
    or_repeat policy (current_tier a) t ts (next_tier_index (current_tier a) (t ∷ ts))

due-eq-some :
    (now : ℕ) (a : Alert) (policy : EscalationPolicy) (tiers : List Tier) (r : Option ℕ)
    (next : Tier)
    → Turns policy (current_tier a) tiers r
    → if_due now a tiers r ≡ some next
    → (i : ℕ) × (get_elem? tiers i ≡ some next)
      × (less64 (elapsed now a.created_at) (minutes (cumulative_timeout tiers i)) ≡ false)
      × IsTurn policy (current_tier a) tiers i
due-eq-some now a policy tiers none next turn h = cc
due-eq-some now a policy tiers (some i) next turn h =
    elim (Bool-cases (less64 (elapsed now a.created_at) (minutes (cumulative_timeout tiers i)))) [
      | inl early ↦ absurd (not_early (rw early at h))
      | inr due ↦ (i, rw due at h, due, turn)
    ]
  where
    not_early : ◌≡◌ {A = Option Tier} none (some next) → ⊥
    not_early e = cc

pub next_escalation-IsTurn :
    (now : ℕ) (a : Alert) (policy : EscalationPolicy) (tiers : List Tier) (next : Tier)
    → next_escalation now a policy tiers ≡ some next
    → (i : ℕ) × (get_elem? tiers i ≡ some next)
      × (less64 (elapsed now a.created_at) (minutes (cumulative_timeout tiers i)) ≡ false)
      × IsTurn policy (current_tier a) tiers i
unfolding next_escalation
next_escalation-IsTurn now a policy [] next h = cc
next_escalation-IsTurn now a policy (t ∷ ts) next h =
    due-eq-some now a policy (t ∷ ts) (chosen_index a policy t ts) next
      (or_repeat-Turns policy (current_tier a) t ts _
        (next_tier_index-Finds (current_tier a) (t ∷ ts)))
      h

turn-again :
    (policy : EscalationPolicy) (current : ℕ) (tiers : List Tier) (i : ℕ)
    → NoneAbove current tiers
    → IsTurn policy current tiers i
    → repeats policy.repeat_count ≡ true
turn-again policy current tiers i past (inl (t, at, above, _)) =
    absurd (true-false above (above-not_past current tiers i t at past))
turn-again policy current tiers i past (inr (_, again, _)) = again

-- An alert that is past every tier of a policy that does not repeat is left alone.
next_escalation_done :
    (now : ℕ) (a : Alert) (policy : EscalationPolicy) (tiers : List Tier)
    → NoneAbove (current_tier a) tiers
    → repeats policy.repeat_count ≡ false
    → next_escalation now a policy tiers ≡ none
next_escalation_done now a policy tiers past once =
    elim (Option-cases (next_escalation now a policy tiers)) [
      | inl e ↦ e
      | inr (next, e) ↦
          let (i, at, due, turn) = next_escalation-IsTurn now a policy tiers next e in
          cc (turn-again policy (current_tier a) tiers i past turn, once)
    ]
