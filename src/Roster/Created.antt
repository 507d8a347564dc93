-- ===== src/Roster/Created.antt =====
-- A new roster (handleCreateRoster, CreateRoster) read back by its id (handleGetRoster).
use nightowl.Base.{
  List, ◌∷◌, ℕ, ◌+◌, ◌*◌, ◌<◌, String, true, Option, some, ◌≡◌, refl, ap, arith, ==_refl,
}
use nightowl.Sql.{Conn, Result, ok, pure, modify, statement, query, ◌>>=◌, attempt, wrap, healthy}
use nightowl.Schema.{Database, Roster}
use nightowl.Http.{answered}
use nightowl.Roster.Store.{get_roster}
use nightowl.Roster.Crud.{
  CreateRosterRequest, RosterError, minutes_of, parse_handoff_time, parse_end_date, new_roster,
  insert_roster, create_roster,
}
use nightowl.Roster.Handler.{Externals, audited, handle_create_roster, handle_get_roster}

-- A time of day goes through microseconds and back.
minutes_of_clock :
    (hour minute : ℕ)
    → hour < 24
    → minute < 60
    → minutes_of (hour * 3600000000 + minute * 60000000) ≡ hour * 60 + minute
unfolding minutes_of
minutes_of_clock hour minute h m = omega (arith, h, m)

abbrev inserted :
    Externals
    → CreateRosterRequest
    → ℕ
    → Option ℕ
    → Database
    → Result RosterError Roster × Conn Database
inserted x req handoff end_date db =
    let r = insert_roster x.parse_clock req handoff end_date db in
    (ok (new_roster x.parse_clock db req handoff end_date), healthy r.1)

create_roster_well_formed :
    (x : Externals) (req : CreateRosterRequest) (hour minute : ℕ) (end_date : Option ℕ)
    (db : Database)
    → x.parse_clock req.handoff_time ≡ some (hour, minute)
    → parse_end_date x.parse_day req.end_date ≡ ok end_date
    → create_roster x.parse_clock x.parse_day req (healthy db)
      ≡ inserted x req (hour * 3600000000 + minute * 60000000) end_date db
unfolding create_roster parse_handoff_time insert_roster statement wrap
create_roster_well_formed x req hour minute end_date db clock day =
    rw (clock, day, create_roster) refl

got_at_head :
    (x : Externals) (r : Roster) (text : String) (db : Database) (rest : List Roster)
    → x.parse_id text ≡ some r.id
    → db.rosters ≡ r ∷ rest
    → (handle_get_roster x text (healthy db)).0 ≡ ok (answered r)
unfolding handle_get_roster get_roster query statement attempt ◌>>=◌ pure
got_at_head x r text db rest parsed head = rw (parsed, handle_get_roster, head, ==_refl r.id) refl

-- Where nothing fails, and the time of the handoff and the end date are well-formed, a roster is
-- created; its id then answers it, and it is active, with the time and the end date of the request.
pub create_roster-get :
    (x : Externals) (req : CreateRosterRequest) (hour minute : ℕ) (end_date : Option ℕ)
    (text : String) (db : Database)
    → x.parse_clock req.handoff_time ≡ some (hour, minute)
    → hour < 24
    → minute < 60
    → parse_end_date x.parse_day req.end_date ≡ ok end_date
    → x.parse_id text ≡ some db.next_id
    → (r : Roster) × ((handle_create_roster x (some req) (healthy db)).0 ≡ ok (answered r))
      × ((handle_get_roster x text
            (healthy (handle_create_roster x (some req) (healthy db)).1.db)).0
          ≡ ok (answered r))
      × (r.is_active ≡ true)
      × (r.handoff_time ≡ some (hour * 60 + minute))
      × (r.end_date ≡ end_date)
unfolding handle_create_roster create_roster insert_roster new_roster audited modify pure attempt
    ◌>>=◌
create_roster-get x req hour minute end_date text db clock h m day parsed =
    let row = new_roster x.parse_clock db req (hour * 3600000000 + minute * 60000000) end_date in
    let eq = create_roster_well_formed x req hour minute end_date db clock day in
    (
      row,
      rw (eq, handle_create_roster) refl,
      got_at_head x row text (handle_create_roster x (some req) (healthy db)).1.db db.rosters parsed
          (rw (eq, handle_create_roster) refl),
      refl,
      ap (λ t. some t) (minutes_of_clock hour minute h m),
      refl,
    )
