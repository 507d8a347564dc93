-- ===== src/Roster/Settings.antt =====
-- What an update of a roster (handleUpdateRoster, UpdateRoster) leaves as it is.
use nightowl.Base.{
  ℕ, String, Bool, List, [], ◌∷◌, map, Option, none, some, ◌≡◌, refl, ap, ◌∙◌, ◌==◌, update,
  Bool-cases, inl, inr, find,
}
use nightowl.Sql.{Conn, Result, ok, err, ◌>>=◌, attempt}
use nightowl.Sql.Preserves.{
  Preserves, pure-Preserves, raise-Preserves, modify-Preserves, statement-Preserves, bind-Preserves,
  attempt-Preserves, wrap-Preserves,
}
use nightowl.Schema.{Database, Roster}
use nightowl.Http.{Answer}
use nightowl.Roster.Crud.{
  UpdateRosterRequest, RosterError, overwrite_roster, update_roster_row, update_dated, update_timed,
  update_roster, parse_handoff_time, parse_end_date,
}
use nightowl.Roster.Handler.{
  Externals, with_parsed, with_body, audited, audited_roster, handle_update_roster,
}

-- The columns that no update sets.
pub record RosterSettings : Type 0 where
  pub id : ℕ
  pub is_active : Bool
  pub is_follow_the_sun : Bool
  pub linked_roster_id : Option ℕ
  pub active_hours_start : Option (Option ℕ)
  pub active_hours_end : Option (Option ℕ)
  pub escalation_policy_id : Option ℕ
  pub created_at : ℕ

abbrev pub settings : Roster → RosterSettings
settings r = record {
  id = r.id;
  is_active = r.is_active;
  is_follow_the_sun = r.is_follow_the_sun;
  linked_roster_id = r.linked_roster_id;
  active_hours_start = r.active_hours_start;
  active_hours_end = r.active_hours_end;
  escalation_policy_id = r.escalation_policy_id;
  created_at = r.created_at;
}

abbrev HasSettings : List RosterSettings → Database → Type 0
HasSettings ss db = map settings db.rosters ≡ ss

module _ {A B : Type 0} where
  map-update :
      (g : A → B) (p : A → Bool) (f : A → A)
      → ((x : A) → g (f x) ≡ g x)
      → (xs : List A) → map g (update p f xs) ≡ map g xs
  map-update g p f same [] = refl
  map-update g p f same (x ∷ xs) = elim (Bool-cases (p x)) [
    | inl hit ↦ rw hit (
        ap (λ y. y ∷ map g (update p f xs)) (same x)
        ∙ ap (λ ys. g x ∷ ys) (map-update g p f same xs))
    | inr miss ↦ rw miss (ap (λ ys. g x ∷ ys) (map-update g p f same xs))
  ]

module _ (ss : List RosterSettings) (n : ℕ) (r : UpdateRosterRequest) where
  update_found-HasSettings :
      (handoff : ℕ) (end_date : Option ℕ) (db : Database) (found : Option Roster)
      → HasSettings ss db
      → find (λ row. row.id == n) db.rosters ≡ found
      → HasSettings ss (update_roster_row n r handoff end_date db).1
  unfolding update_roster_row overwrite_roster
  update_found-HasSettings handoff end_date db none h e = rw (e, update_roster_row) h
  update_found-HasSettings handoff end_date db (some old) h e =
      rw (e, update_roster_row)
        (map-update settings (λ row. row.id == n) (overwrite_roster db.now r handoff end_date)
            (λ x. refl) db.rosters
          ∙ h)

  update_dated-HasSettings :
      (parse_clock : String → Option (ℕ × ℕ)) (parse_day : String → Option ℕ) (handoff : ℕ)
      (end_date : Result RosterError (Option ℕ))
      → Preserves (HasSettings ss) (update_dated parse_clock parse_day n r handoff end_date)
  update_dated-HasSettings parse_clock parse_day handoff (err e) = raise-Preserves e
  update_dated-HasSettings parse_clock parse_day handoff (ok end_date) = wrap-Preserves _ _ (
      statement-Preserves (update_roster_row n r handoff end_date) (λ db h.
        update_found-HasSettings handoff end_date db (find (λ row. row.id == n) db.rosters) h refl))

  update_timed-HasSettings :
      (parse_clock : String → Option (ℕ × ℕ)) (parse_day : String → Option ℕ) (handoff : Option ℕ)
      → Preserves (HasSettings ss) (update_timed parse_clock parse_day n r handoff)
  update_timed-HasSettings parse_clock parse_day none = raise-Preserves _
  update_timed-HasSettings parse_clock parse_day (some handoff) =
      update_dated-HasSettings parse_clock parse_day handoff (parse_end_date parse_day r.end_date)

  answer-HasSettings :
      (refuse : RosterError → Answer Roster) (result : Result RosterError Roster)
      → Preserves (HasSettings ss) (audited_roster "update" refuse result)
  unfolding audited
  answer-HasSettings refuse (ok row) =
      bind-Preserves _ _ (modify-Preserves _ (λ db h. h)) (λ _. pure-Preserves _)
  answer-HasSettings refuse (err e) = pure-Preserves _

module _ (ss : List RosterSettings) (x : Externals) where
  update-HasSettings :
      (id : Option ℕ) (body : Option UpdateRosterRequest) (refuse : RosterError → Answer Roster)
      → Preserves (HasSettings ss) (
          with_parsed id (λ n. with_body body (λ req. do
            r ← attempt (update_roster x.parse_clock x.parse_day n req)
            audited_roster "update" refuse r)))
  unfolding update_roster
  update-HasSettings none body refuse = pure-Preserves _
  update-HasSettings (some n) none refuse = pure-Preserves _
  update-HasSettings (some n) (some req) refuse =
      bind-Preserves _ _
        (attempt-Preserves _ (
          update_timed-HasSettings ss n req x.parse_clock x.parse_day
            (parse_handoff_time x.parse_clock req.handoff_time)))
        (λ r. answer-HasSettings ss n req refuse r)

-- An update of a roster, whatever fails, leaves of every roster whether it is active, the active
-- hours, the linked roster and the escalation policy as they were, also where the request says
-- whether the roster is to be active.
pub update_keeps_settings :
    (x : Externals) (id : String) (body : Option UpdateRosterRequest) (c : Conn Database)
    → map settings (handle_update_roster x id body c).1.db.rosters ≡ map settings c.db.rosters
unfolding handle_update_roster
update_keeps_settings x id body c =
    (update-HasSettings (map settings c.db.rosters) x (x.parse_id id) body _).keep c refl
