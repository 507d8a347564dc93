-- ===== src/Roster/Generate/Runs.antt =====
-- Nobody is primary for more weeks in a row than the roster allows.
use mathlib.Core.Path.{subst₂}
use nightowl.Base.{
  ℕ, zero, suc, ◌+◌, ◌≤◌, ◌<◌, ◌≡◌, ◌≢◌, refl, inl, inr, List, [], ◌∷◌, Option, none, some, ◌==◌,
  ==_iff, arith, if◌then◌else◌, is_some_of, Any, Bool-cases, Option-cases,
}
use nightowl.Schema.{Member}
use nightowl.Roster.Pick.Laws.{pick_primary_fair, pick_primary_limit}
use nightowl.Roster.Store.{ScheduleEntry}
use nightowl.Roster.Generate.{Tracking, track_week, choose_primary, choose_secondary, locked_entry}
use nightowl.Roster.Generate.Plan.{Assignment, plan_weeks}

abbrev run_after : Option ℕ → ℕ → Option ℕ → ℕ
run_after last run none = run
run_after last run (some user) = if is_some_of last user then run + 1 else 1

abbrev last_after : Option ℕ → Option ℕ → Option ℕ
last_after last none = last
last_after last (some user) = some user

-- With `last` primary for `run` weeks before them, no run of the assignments exceeds `limit`.
abbrev pub RunsWithin : ℕ → Option ℕ → ℕ → List Assignment → Type 0
RunsWithin limit last run [] = Unit
RunsWithin limit last run (a ∷ rest) =
    (run_after last run a.primary ≤ limit)
    × RunsWithin limit (last_after last a.primary) (run_after last run a.primary) rest

other_than :
    (m : Member) (ms : List Member) (user : ℕ)
    → Any (λ x. x.user_id ≢ m.user_id) ms
    → Any (λ x. x.user_id ≢ user) (m ∷ ms)
other_than m ms user others = elim (Bool-cases (m.user_id == user)) [
  | inl same ↦ inr (Any-same ms ((==_iff m.user_id user).0 same) others)
  | inr differs ↦ inl (λ e. ground arith)
]
  where
    Any-same :
        (xs : List Member)
        → m.user_id ≡ user
        → Any (λ x. x.user_id ≢ m.user_id) xs
        → Any (λ x. x.user_id ≢ user) xs
    Any-same xs e h = rw e at h

last-track_week :
    (primary secondary : Option ℕ) (t : Tracking)
    → (track_week primary secondary t).last_primary ≡ last_after t.last_primary primary
unfolding track_week
last-track_week none secondary t = refl
last-track_week (some user) secondary t = ground arith

run-track_week :
    (primary secondary : Option ℕ) (t : Tracking)
    → (track_week primary secondary t).consecutive_count
      ≡ run_after t.last_primary t.consecutive_count primary
unfolding track_week
run-track_week none secondary t = refl
run-track_week (some user) secondary t = ground arith

module _ (m : Member) (ms : List Member) (limit : ℕ) where
  chosen_within :
      (t : Tracking) (user : ℕ)
      → Any (λ x. x.user_id ≢ m.user_id) ms
      → 0 < limit
      → t.consecutive_count ≤ limit
      → choose_primary (m ∷ ms) limit t ≡ some user
      → run_after t.last_primary t.consecutive_count (some user) ≤ limit
  chosen_within t user others pos within e = elim (Option-cases t.last_primary) [
    | inl first ↦ rw first (omega arith)
    | inr (last, is_last) ↦ rw is_last (
        ground (
          arith,
          pick_primary_limit (m ∷ ms) t.primary_count last t.consecutive_count limit user
              (other_than m ms last others),
        ))
  ]

  chosen_primary_within :
      (t : Tracking)
      → Any (λ x. x.user_id ≢ m.user_id) ms
      → 0 < limit
      → t.consecutive_count ≤ limit
      → run_after t.last_primary t.consecutive_count (choose_primary (m ∷ ms) limit t) ≤ limit
  chosen_primary_within t others pos within =
      let (user, e, _) =
        pick_primary_fair m ms t.primary_count t.last_primary t.consecutive_count limit in
      rw e (chosen_within t user others pos within e)

  -- Where no week of the window is locked and the roster has two members, the plan keeps to the
  -- limit on consecutive weeks, the weeks before the window included.
  pub plan-RunsWithin :
      (existing : List ScheduleEntry) (weeks week : ℕ) (t : Tracking)
      → ((w : ℕ) → locked_entry existing w ≡ none)
      → Any (λ x. x.user_id ≢ m.user_id) ms
      → 0 < limit
      → t.consecutive_count ≤ limit
      → RunsWithin limit t.last_primary t.consecutive_count
          (plan_weeks (m ∷ ms) limit existing weeks week t)
  unfolding plan_weeks
  plan-RunsWithin existing zero week t unlocked others pos within = tt
  plan-RunsWithin existing (suc weeks) week t unlocked others pos within =
      let primary = choose_primary (m ∷ ms) limit t in
      let secondary = choose_secondary (m ∷ ms) t primary in
      let first = chosen_primary_within t others pos within in
      let t' = track_week primary secondary t in
      let rest =
        plan-RunsWithin existing weeks (week + 7) t' unlocked others pos
          (rw run-track_week first) in
      rw (unlocked week) (
        first,
        subst₂
            (λ last run.
              RunsWithin limit last run (plan_weeks (m ∷ ms) limit existing weeks (week + 7) t'))
            (last-track_week primary secondary t) (run-track_week primary secondary t) rest,
      )
