-- ===== src/Roster/Service.antt =====
-- The operations of the roster service on members, each of which regenerates the coming weeks, and
-- the periodic top-up (pkg/roster/service.go, worker.go).
use nightowl.Base.{ℕ, String, Bool, List, [], ◌∷◌, if◌then◌else◌}
use nightowl.Sql.{Sql, SqlError, pure, gets, ◌>>=◌, ◌>>◌, attempt, wrap}
use nightowl.Schema.{Database, Roster, Member}
use nightowl.Roster.Store.{
  ScheduleEntry, get_roster, add_member, deactivate_member, set_member_active, list_rosters,
}
use nightowl.Roster.Generate.{GenerateError, generate_schedule, getting_roster}

module _ (uuid_text : ℕ → String) where
  unfoldable pub regenerate_future : ℕ → Sql Database GenerateError (List ScheduleEntry)
  regenerate_future roster_id = do
    roster ← wrap getting_roster (get_roster roster_id)
    now ← gets (λ db. db.now)
    generate_schedule uuid_text roster_id now roster.schedule_weeks_ahead

  -- AddMember: a failed regeneration is only logged.
  unfoldable pub add_member_to : ℕ → ℕ → Sql Database SqlError Member
  add_member_to roster_id user_id = do
    member ← add_member roster_id user_id
    done ← attempt (regenerate_future roster_id)
    pure member

  -- DeactivateMember
  unfoldable pub deactivate_member_of : ℕ → ℕ → Sql Database SqlError (Unit {0})
  deactivate_member_of roster_id user_id = do
    deactivate_member roster_id user_id
    done ← attempt (regenerate_future roster_id)
    pure tt

  -- SetMemberActive
  unfoldable pub set_active_of : ℕ → ℕ → Bool → Sql Database SqlError (Unit {0})
  set_active_of roster_id user_id active = do
    set_member_active roster_id user_id active
    done ← attempt (regenerate_future roster_id)
    pure tt

  -- The loop of topUpTenant: a roster that fails does not stop the others.
  unfoldable pub top_up_rosters : List Roster → Sql Database SqlError (Unit {0})
  top_up_rosters [] = pure tt
  top_up_rosters (r ∷ rs) = do
    (if r.is_active
        then (do
          now ← gets (λ db. db.now)
          done ← attempt (generate_schedule uuid_text r.id now r.schedule_weeks_ahead)
          pure tt)
        else pure tt)
    top_up_rosters rs

  -- topUpTenant, after the choice of the tenant's schema.
  unfoldable pub top_up_tenant : Sql Database SqlError (Unit {0})
  top_up_tenant = do rosters ← list_rosters; top_up_rosters rosters
