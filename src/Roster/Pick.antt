-- ===== src/Roster/Pick.antt =====
-- Whom the schedule generator picks for a week (pkg/roster/scheduler.go).
pub mod Least
pub mod Laws
use nightowl.Base.{
  ℕ, ◌+◌, Bool, true, false, ◌&&◌, ◌||◌, not, List, [], ◌∷◌, Option, none, some, ltb, leb, ◌==◌,
  if◌then◌else◌, is_some_of, is_none,
}
use nightowl.Schema.{Member}
use mathlib.Core.Option

-- map[uuid.UUID]int: a missing key reads as 0.
abbrev pub Counts : Type 0
Counts = ℕ → ℕ

-- `counts[user]++`
unfoldable pub increment : Counts → ℕ → Counts
increment counts user other = if other == user then counts other + 1 else counts other

-- One round of a picking loop: `best` is the candidate so far with its count.
unfoldable pub consider : (ℕ → Bool) → (ℕ → ℕ) → Option (ℕ × ℕ) → ℕ → Option (ℕ × ℕ)
consider skip score none user = if skip user then none else some (user, score user)
consider skip score (some (best, best_count)) user =
    if not (skip user) && ltb (score user) best_count
    then some (user, score user)
    else some (best, best_count)

-- The loop `for _, m := range members`.
unfoldable pub least : (ℕ → Bool) → (ℕ → ℕ) → Option (ℕ × ℕ) → List Member → Option (ℕ × ℕ)
unfolding consider
least skip score best [] = best
least skip score best (m ∷ ms) = least skip score (consider skip score best m.user_id) ms

-- Whether the limit on consecutive weeks keeps a member from being primary again.
unfoldable pub is_blocked : Option ℕ → ℕ → ℕ → ℕ → Bool
is_blocked last_primary consecutive_count max_consecutive user =
    ltb 0 max_consecutive && is_some_of last_primary user && leb max_consecutive consecutive_count

abbrev pub no_skip : ℕ → Bool
no_skip _ = false

-- The second loop runs if the first found nobody.
abbrev pub relax : Counts → List Member → Option (ℕ × ℕ) → Option (ℕ × ℕ)
relax counts members none = least no_skip counts none members
relax counts members (some best) = some best

unfoldable pub pick_primary : List Member → Counts → Option ℕ → ℕ → ℕ → Option ℕ
unfolding least is_blocked
pick_primary members primary_count last_primary consecutive_count max_consecutive =
    Option.map (λ b. b.0)
      (relax primary_count members (
        least (is_blocked last_primary consecutive_count max_consecutive) primary_count none
          members))

unfoldable pub pick_secondary : List Member → Counts → Counts → ℕ → Option ℕ
unfolding least
pick_secondary members primary_count secondary_count primary =
    Option.map (λ b. b.0)
      (least (λ user. user == primary) (λ user. primary_count user + secondary_count user) none
        members)
