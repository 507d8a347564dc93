-- ===== src/Alerts/Enrich.antt =====
-- Enriching an alert from the knowledge base (pkg/alert/enrich.go).
use Prim.Native.String.{◌++◌ as ◌<>◌}
use nightowl.Base.{
  ℕ, String, str_eq, Bool, true, false, ◌&&◌, List, [], ◌∷◌, Option, none, some, is_none, ltb, ◌==◌,
  if◌then◌else◌, find, select, update,
}
use nightowl.Sql.{Sql, SqlError, Result, ok, err, pure, query, exec, ◌>>=◌, attempt}
use nightowl.Schema.{Database, Incident, Runbook}
use nightowl.Incident.Store.{has_string}
use nightowl.Alerts.Normalize.{Externals, BookOwl}
use nightowl.Alerts.Dedup.{AlertError}

-- `matched_incident_id` is 0, uuid.Nil, where no incident matched.
pub record EnrichResult : Type 0 where
  pub is_enriched : Bool
  pub matched_incident_id : ℕ
  pub suggested_solution : String
  pub runbook_url : String
  pub match_method : String

abbrev pub no_result : EnrichResult
no_result = record {
  is_enriched = false;
  matched_incident_id = 0;
  suggested_solution = "";
  runbook_url = "";
  match_method = "";
}

abbrev pub text_or_empty : Option String → String
text_or_empty none = ""
text_or_empty (some s) = s

-- `LEFT JOIN runbooks r ON r.id = i.runbook_id`
abbrev pub runbook_joined : List Runbook → Option ℕ → Option Runbook
runbook_joined runbooks none = none
runbook_joined runbooks (some id) = find (λ r. r.id == id) runbooks

abbrev pub with_content : String → Option Runbook → String
with_content solution none = solution
with_content solution (some rb) =
    if str_eq rb.content ""
    then solution
    else if str_eq solution ""
    then rb.content
    else (solution <> ("\n\n---\n\n" <> rb.content))

abbrev pub runbook_link : (ℕ → String) → Option Runbook → String
runbook_link uuid_text none = ""
runbook_link uuid_text (some rb) = "/runbooks/" <> uuid_text rb.id

unfoldable pub build_enrich_result :
    (ℕ → String) → Incident → String → Option Runbook → EnrichResult
build_enrich_result uuid_text incident method runbook = record {
  is_enriched = true;
  matched_incident_id = incident.id;
  suggested_solution = with_content (text_or_empty incident.solution) runbook;
  runbook_url = runbook_link uuid_text runbook;
  match_method = method;
}

abbrev pub result_of_row : (ℕ → String) → String → List Runbook → Option Incident → EnrichResult
result_of_row uuid_text method runbooks none = no_result
result_of_row uuid_text method runbooks (some i) =
    build_enrich_result uuid_text i method (runbook_joined runbooks i.runbook_id)

abbrev higher : Incident → ℕ → Option (Incident × ℕ) → Option (Incident × ℕ)
higher i n none = some (i, n)
higher i n (some best) = if ltb n best.1 then some best else some (i, n)

abbrev ranked : Incident → Option ℕ → Option (Incident × ℕ) → Option (Incident × ℕ)
ranked i none best = best
ranked i (some n) best = higher i n best

-- The first incident with the highest rank, of those that the search matches.
abbrev pub best_ranked : (Incident → Option ℕ) → List Incident → Option (Incident × ℕ)
best_ranked rank [] = none
best_ranked rank (i ∷ rest) = ranked i (rank i) (best_ranked rank rest)

abbrev above : ℕ → Option (Incident × ℕ) → Option Incident
above min_rank none = none
above min_rank (some best) = if ltb best.1 min_rank then none else some best.0

abbrev result_or_none : Result SqlError EnrichResult → EnrichResult
result_or_none (ok r) = r
result_or_none (err e) = no_result

abbrev pub search_query : String → Option String → String
search_query title none = title
search_query title (some d) = if str_eq d "" then title else (title <> (" " <> d))

abbrev pub solution_column : String → Option String
solution_column s = if str_eq s "" then none else some s

unfoldable pub apply_enrichment : ℕ → EnrichResult → Sql Database SqlError (Unit {0})
apply_enrichment alert_id result = exec λ db. record db {
  alerts =
      update (λ a. a.id == alert_id)
        (λ a. record a {
          matched_incident_id =
              if result.matched_incident_id == 0
              then a.matched_incident_id
              else some result.matched_incident_id;
          suggested_solution = solution_column result.suggested_solution;
          updated_at = db.now;
        })
        db.alerts;
}

abbrev detail_result : BookOwl → String → String → Option String → EnrichResult
detail_result owl id url none = no_result
detail_result owl id url (some content) = record {
  is_enriched = true;
  matched_incident_id = 0;
  suggested_solution = content;
  runbook_url = url;
  match_method = "bookowl_runbook";
}

abbrev first_runbook : BookOwl → Option (List (String × String)) → EnrichResult
first_runbook owl none = no_result
first_runbook owl (some []) = no_result
first_runbook owl (some ((id, url) ∷ rest)) = detail_result owl id url (owl.get_runbook id)

-- An error of the search or of the request for the text is logged, and leaves no result.
unfoldable pub match_by_bookowl_runbook : Option BookOwl → String → EnrichResult
match_by_bookowl_runbook none text = no_result
match_by_bookowl_runbook (some owl) text = first_runbook owl (owl.list_runbooks text)

module _ (env : Externals) where
  unfoldable pub match_by_fingerprint : String → Sql Database SqlError EnrichResult
  match_by_fingerprint fingerprint = query λ db. ok (
      result_of_row env.uuid_text "fingerprint" db.runbooks (
        find (λ i. has_string fingerprint i.fingerprints && is_none i.merged_into_id) db.incidents))

  unfoldable pub match_by_text_search : String → Sql Database SqlError EnrichResult
  match_by_text_search text = query λ db. ok (
      result_of_row env.uuid_text "text_search" db.runbooks (
        above env.min_rank
          (best_ranked (env.rank text) (select (λ i. is_none i.merged_into_id) db.incidents))))

  -- Applies a result, or goes on without one.
  unfoldable pub apply_or :
      ℕ → EnrichResult → Sql Database AlertError EnrichResult → Sql Database AlertError EnrichResult
  apply_or alert_id result next =
      if result.is_enriched
      then (attempt (apply_enrichment alert_id result) >>= λ applied. pure result)
      else next

  unfoldable pub enrich_by_bookowl : ℕ → String → Sql Database AlertError EnrichResult
  enrich_by_bookowl alert_id text =
      apply_or alert_id (match_by_bookowl_runbook env.bookowl text) (pure no_result)

  unfoldable pub enrich_by_text : ℕ → String → Sql Database AlertError EnrichResult
  enrich_by_text alert_id text = do
    r ← attempt (match_by_text_search text)
    apply_or alert_id (result_or_none r) (enrich_by_bookowl alert_id text)

  -- Enrich: it never fails.
  unfoldable pub enrich : ℕ → String → String → Option String → Sql Database AlertError EnrichResult
  enrich alert_id fingerprint title description = do
    r ← attempt (match_by_fingerprint fingerprint)
    apply_or alert_id (result_or_none r) (enrich_by_text alert_id (search_query title description))
