-- ===== src/Roster/Generate/Balance.antt =====
-- With no limit and no locked week, the generator keeps the members' primary weeks balanced.
use nightowl.Base.{ℕ, ◌+◌, ◌≤◌, ◌≡◌, List, is_some_of, Any, count}
use nightowl.Schema.{Member}
use nightowl.Roster.Pick.{Counts}
use nightowl.Roster.Generate.Plan.{Assignment}

abbrev pub IsUser : List Member → ℕ → Type 0
IsUser members user = Any (λ m. m.user_id ≡ user) members

-- No member is more than a week ahead of another.
abbrev pub IsBalanced : List Member → Counts → Type 0
IsBalanced members counts =
    (x y : ℕ) → IsUser members x → IsUser members y → counts x ≤ counts y + 1

-- How often a user is primary in the assignments.
abbrev pub served : ℕ → List Assignment → ℕ
served user = count (λ a. is_some_of a.primary user)
