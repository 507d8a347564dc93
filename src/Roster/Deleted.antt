-- ===== src/Roster/Deleted.antt =====
-- What the deletion of a roster (handleDeleteRoster, DeleteRoster) does to the tables.
use nightowl.Base.{
  ℕ, String, Bool, true, false, not, List, [], ◌∷◌, Option, none, some, ◌≡◌, ◌≢◌, refl, sym, ◌∙◌,
  ◌==◌, arith, select, All, find, Bool-cases, inl, inr,
}
use nightowl.Sql.{
  Conn, SqlError, no_rows, failed, NoError, Result, ok, err, pure, modify, statement, run_statement,
  ◌>>=◌, attempt,
}
use nightowl.Schema.{Database, Roster}
use nightowl.Alerts.Store.{with_audit}
use nightowl.Http.{Answer, answered, bad_request, not_found, unprocessable, internal_error}
use nightowl.Roster.Crud.{links_to, without_roster, delete_roster_row, delete_roster}
use nightowl.Roster.Handler.{Externals, audited, audited_delete, handle_delete_roster}

module _ {A : Type 0} where
  abbrev belongs_not : (A → ℕ) → ℕ → A → Bool
  belongs_not key id a = not (key a == id)

  -- The rows of a roster are gone, and the others are there as they were, in order.
  abbrev IsWithout : (A → ℕ) → ℕ → List A → List A → Type 0
  IsWithout key id rows left =
      All (λ a. belongs_not key id a ≡ true) left
      × (select (belongs_not key id) left ≡ select (belongs_not key id) rows)

  select-All : (p : A → Bool) (xs : List A) → All (λ a. p a ≡ true) (select p xs)
  select-All p [] = tt
  select-All p (x ∷ xs) = elim (Bool-cases (p x)) [
    | inl hit ↦ rw hit (hit, select-All p xs)
    | inr miss ↦ rw miss (select-All p xs)
  ]

  select-select : (p : A → Bool) (xs : List A) → select p (select p xs) ≡ select p xs
  select-select p [] = refl
  select-select p (x ∷ xs) = ground (arith, select-select p xs)

  select-IsWithout :
      (key : A → ℕ) (id : ℕ) (rows : List A)
      → IsWithout key id rows (select (belongs_not key id) rows)
  select-IsWithout key id rows =
      (select-All (belongs_not key id) rows, select-select (belongs_not key id) rows)

-- What an answer to a deletion says of the tables before and after it.
abbrev pub IsDeletion : ℕ → Database → Result NoError (Answer (Unit {0})) → Database → Type 0
IsDeletion id db (ok (answered _)) after =
    IsWithout (λ r. r.id) id db.rosters after.rosters
    × IsWithout (λ m. m.roster_id) id db.roster_members after.roster_members
    × IsWithout (λ row. row.roster_id) id db.roster_schedule after.roster_schedule
    × IsWithout (λ o. o.roster_id) id db.roster_overrides after.roster_overrides
    × (after ≡ record db {
      rosters = after.rosters;
      roster_members = after.roster_members;
      roster_schedule = after.roster_schedule;
      roster_overrides = after.roster_overrides;
      audit_log = after.audit_log;
      buffer_full = after.buffer_full;
    })
    × ((r : Roster) → find (links_to id) db.rosters ≢ some r)
IsDeletion id db (ok bad_request) after = after ≡ db
IsDeletion id db (ok not_found) after = after ≡ db
IsDeletion id db (ok unprocessable) after = after ≡ db
IsDeletion id db (ok internal_error) after = after ≡ db
IsDeletion id db (err e) after = after ≡ db

none≢some : (r : Roster) → ◌≢◌ {A = Option Roster} none (some r)
none≢some r h = cc

without-IsDeletion :
    (id : ℕ) (db : Database)
    → find (links_to id) db.rosters ≡ none
    → IsDeletion id db (ok (answered tt)) (with_audit "delete" "roster" id (without_roster id db))
without-IsDeletion id db unlinked = (
  select-IsWithout (λ r. r.id) id db.rosters,
  select-IsWithout (λ m. m.roster_id) id db.roster_members,
  select-IsWithout (λ row. row.roster_id) id db.roster_schedule,
  select-IsWithout (λ o. o.roster_id) id db.roster_overrides,
  refl,
  λ r h. none≢some r (sym unlinked ∙ h),
)

-- A refusal of the store is answered without a change.
refused-IsDeletion :
    (id : ℕ) (e : SqlError) (c : Conn Database)
    → IsDeletion id c.db (audited_delete id (err e) c).0 (audited_delete id (err e) c).1.db
unfolding pure
refused-IsDeletion id no_rows c = refl
refused-IsDeletion id failed c = refl

-- The answer to the statement, for what it found.
answer-IsDeletion :
    (id : ℕ) (db : Database) (faults : List Bool) (found linked : Option Roster)
    → find (λ r. r.id == id) db.rosters ≡ found
    → find (links_to id) db.rosters ≡ linked
    → (let r = delete_roster_row id db in
        let c : Conn Database = record { db = r.1; faults = faults } in
        IsDeletion id db (audited_delete id r.0 c).0 (audited_delete id r.0 c).1.db)
unfolding delete_roster_row audited modify pure ◌>>=◌
answer-IsDeletion id db faults none linked found_eq linked_eq =
    rw (found_eq, delete_roster_row)
      (refused-IsDeletion id no_rows (record { db = db; faults = faults }))
answer-IsDeletion id db faults (some old) (some other) found_eq linked_eq =
    rw (found_eq, linked_eq, delete_roster_row)
      (refused-IsDeletion id failed (record { db = db; faults = faults }))
answer-IsDeletion id db faults (some old) none found_eq linked_eq =
    rw (found_eq, linked_eq, delete_roster_row) (without-IsDeletion id db linked_eq)

run-IsDeletion :
    (id : ℕ) (db : Database) (faults : List Bool)
    → (let r = run_statement (delete_roster_row id) db faults in
        IsDeletion id db (audited_delete id r.0 r.1).0 (audited_delete id r.0 r.1).1.db)
run-IsDeletion id db [] = answer-IsDeletion id db [] _ _ refl refl
run-IsDeletion id db (false ∷ rest) = answer-IsDeletion id db rest _ _ refl refl
run-IsDeletion id db (true ∷ rest) =
    refused-IsDeletion id failed (record { db = db; faults = rest })

-- On every connection, a deletion that is answered with success leaves no roster, member, week or
-- override of that roster and all others as they were, changes no other table besides the audit
-- log, and no other roster was linked to it; any other answer changes nothing.
pub delete_roster_lem :
    (x : Externals) (text : String) (id : ℕ) (c : Conn Database)
    → x.parse_id text ≡ some id
    → IsDeletion id c.db (handle_delete_roster x text c).0 (handle_delete_roster x text c).1.db
unfolding handle_delete_roster delete_roster statement attempt ◌>>=◌
delete_roster_lem x text id c parsed =
    rw (parsed, handle_delete_roster) (run-IsDeletion id c.db c.faults)
