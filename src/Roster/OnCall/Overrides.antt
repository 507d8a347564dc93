-- ===== src/Roster/OnCall/Overrides.antt =====
-- An override takes over for its time, and for no other.
use nightowl.Base.{
  ℕ, suc, ◌≤◌, ◌<◌, ◌≡◌, refl, ◌⊎◌, [], ◌∷◌, ◌++◌, String, true, false, Option, none, some, lt→ltb,
  ==_refl, arith, find, find-append_new, find-append_miss, Option-cases, inl, inr,
}
use mathlib.Core.Option
use nightowl.Sql.{ok, healthy, statement, query, ◌>>=◌}
use nightowl.Schema.{Database, Roster, Override}
use nightowl.Roster.Store.{
  user_name, is_active_at, get_active_override, get_schedule_for_time, get_user_display_name,
}
use nightowl.Roster.Weeks.{create_override, insert_override, display_name_of, new_override}
use nightowl.Roster.OnCall.{
  OnCallResponse, override, resolve_schedule, resolve_on_call, answer_override, answer_schedule,
}

module _ (uuid_text : ℕ → String) (roster : Roster) (user start end : ℕ) (reason : Option String)
    (caller : Option ℕ) (db : Database) (ordered : start < end) where
  -- The tables after the override was created.
  abbrev stored : Override
  stored = new_override db.next_id db.now roster.id user start end reason caller

  abbrev pub with_override : Database
  with_override =
      (create_override uuid_text roster.id user (some start) (some end) reason caller
        (healthy db)).1.db

  -- The one change is the new row.
  with_override_lem :
      (create_override uuid_text roster.id user
        (some start)
        (some end)
        reason
        caller
        (healthy db)).1.db
      ≡ record db {
        next_id = suc db.next_id;
        roster_overrides = db.roster_overrides ++ stored ∷ [];
      }
  unfolding create_override insert_override display_name_of get_user_display_name statement query
      ◌>>=◌
  with_override_lem = rw (lt→ltb start end ordered)

  stored-active : (at : ℕ) → start ≤ at → at < end → is_active_at roster.id at stored ≡ true
  stored-active at low high = ground (arith, ==_refl roster.id)

  stored-inactive : (at : ℕ) → (at < start) ⊎ (end ≤ at) → is_active_at roster.id at stored ≡ false
  stored-inactive at out = ground arith

  -- Where no statement fails and no other override is active, the user of a new override is on call from its start to its
  -- end; the secondary stays the scheduled one.
  pub override_takes_over :
      (at : ℕ)
      → find (is_active_at roster.id at) db.roster_overrides ≡ none
      → start ≤ at
      → at < end
      → (resp before : OnCallResponse) × ((resolve_on_call uuid_text roster at
            (healthy with_override)).0
          ≡ ok resp)
        × ((resolve_on_call uuid_text roster at (healthy db)).0 ≡ ok before)
        × (resp.source ≡ override)
        × (Option.map (λ p. p.user_id) resp.primary ≡ some user)
        × (resp.secondary ≡ before.secondary)
  unfolding resolve_on_call resolve_schedule get_active_override get_schedule_for_time
      answer_override answer_schedule user_name statement query ◌>>=◌
  override_takes_over at free low high =
      rw
        (
          with_override_lem,
          find-append_new (is_active_at roster.id at) db.roster_overrides stored free
              (stored-active at low high),
          free,
        )
        (_, _, refl, refl, refl, refl, refl)

  -- Where no statement fails, at any instant outside a new override the answer is what it was.
  pub override_elsewhere :
      (at : ℕ)
      → (at < start) ⊎ (end ≤ at)
      → (resolve_on_call uuid_text roster at (healthy with_override)).0
        ≡ (resolve_on_call uuid_text roster at (healthy db)).0
  unfolding resolve_on_call resolve_schedule get_active_override get_schedule_for_time
      answer_override answer_schedule user_name statement query ◌>>=◌
  override_elsewhere at out =
      let missed =
        find-append_miss (is_active_at roster.id at) db.roster_overrides stored
          (stored-inactive at out) in
      elim (Option-cases (find (is_active_at roster.id at) db.roster_overrides)) [
        | inl free ↦ rw (with_override_lem, missed, free)
        | inr (o, taken) ↦ rw (with_override_lem, missed, taken, with_override_lem)
      ]
