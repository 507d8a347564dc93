-- ===== src/Chat/Queries.antt =====
-- The statements that the chat handlers send (sqlc/queries) and the connection that they take. What
-- PostgreSQL's text search finds and how it ranks, its order of names, the reading and writing of a
-- UUID and `strings.ToLower` are parameters.
use nightowl.Base.{
  ℕ, suc, String, Bool, ◌&&◌, ◌||◌, List, [], ◌∷◌, ◌++◌, Option, none, some, is_none, if◌then◌else◌,
  select, sort_with, take,
}
use nightowl.Sql.{Sql, SqlError, failed, Result, ok, err, statement, query, exec, ◌>>=◌}
use nightowl.Schema.{Database, Incident, Roster}
use nightowl.Incident.Store.{IncidentParams, new_incident}

pub record Externals : Type 0 where
  pub parse_id : String → Option ℕ
  pub id_text : ℕ → String
  pub to_lower : String → String
  pub matches : String → Incident → Bool
  pub ranks_before : String → Incident → Incident → Bool
  pub name_before : Roster → Roster → Bool

-- acquireTenantConn: `pool.Acquire` and `SET search_path`, which change no table.
unfoldable pub acquire_tenant_conn : Sql Database SqlError (Unit {0})
acquire_tenant_conn = do _ ← exec (λ db. db); exec (λ db. db)

unfoldable pub search_incidents : Externals → String → ℕ → Sql Database SqlError (List Incident)
search_incidents ext text limit = query λ db. ok (
    take limit (
      sort_with (ext.ranks_before text)
        (select (λ i. ext.matches text i && is_none i.merged_into_id) db.incidents)))

unfoldable pub list_rosters : Externals → Sql Database SqlError (List Roster)
list_rosters ext = query (λ db. ok (sort_with ext.name_before db.rosters))

-- CreateIncidentParams of the generated code: a slice that the caller leaves out is nil, and is
-- sent as NULL.
pub record CreateIncidentParams : Type 0 where
  pub title : String
  pub fingerprints : Option (List String)
  pub severity : String
  pub category : Option String
  pub tags : Option (List String)
  pub services : Option (List String)
  pub clusters : Option (List String)
  pub namespaces : Option (List String)
  pub symptoms : Option String
  pub error_patterns : Option (List String)
  pub root_cause : Option String
  pub solution : Option String
  pub runbook_id : Option ℕ
  pub created_by : Option ℕ

-- The columns that are NOT NULL (sqlc/schema/tenant.sql): the statement gives each of them, so
-- their defaults are not used.
abbrev pub violates_not_null : CreateIncidentParams → Bool
violates_not_null p =
    is_none p.fingerprints
    || is_none p.tags
    || is_none p.services
    || is_none p.clusters
    || is_none p.namespaces

abbrev pub or_empty : Option (List String) → List String
or_empty none = []
or_empty (some xs) = xs

abbrev pub given_fields : CreateIncidentParams → IncidentParams
given_fields p = record {
  title = p.title;
  fingerprints = or_empty p.fingerprints;
  severity = p.severity;
  category = p.category;
  tags = or_empty p.tags;
  services = or_empty p.services;
  clusters = or_empty p.clusters;
  namespaces = or_empty p.namespaces;
  symptoms = p.symptoms;
  error_patterns = or_empty p.error_patterns;
  root_cause = p.root_cause;
  solution = p.solution;
  runbook_id = p.runbook_id;
}

abbrev pub insert_given : CreateIncidentParams → Database → Result SqlError Incident × Database
insert_given p db =
    let row = new_incident (given_fields p) p.created_by db.next_id db.now in
    if violates_not_null p
    then (err failed, db)
    else (ok row, record db { next_id = suc db.next_id; incidents = db.incidents ++ row ∷ [] })

unfoldable pub create_incident : CreateIncidentParams → Sql Database SqlError Incident
create_incident p = statement (insert_given p)

-- The only fields that the dialogs give.
abbrev pub dialog_params : String → String → String → String → CreateIncidentParams
dialog_params title severity symptoms solution = record {
  title = title;
  fingerprints = none;
  severity = severity;
  category = none;
  tags = none;
  services = none;
  clusters = none;
  namespaces = none;
  symptoms = some symptoms;
  error_patterns = none;
  root_cause = none;
  solution = some solution;
  runbook_id = none;
  created_by = none;
}
