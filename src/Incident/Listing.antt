-- ===== src/Incident/Listing.antt =====
-- The reads of the incident service (Get, ListHistory, List, Search, GetByFingerprint and
-- ListMergedSources of pkg/incident/service.go) with their statements (pkg/incident/store.go). What
-- the text search finds and how it ranks are parameters, and its highlighted texts are left out.
-- The order of incidents that were created together is a parameter of each page, since PostgreSQL
-- promises none; in the other lists, rows with equal times keep the order of the table.
use nightowl.Base.{
  ℕ, String, str_eq, Bool, true, false, not, ◌&&◌, ◌||◌, List, [], ◌∷◌, Option, none, some, is_none,
  is_some_of, leb, ltb, ◌==◌, if◌then◌else◌, select, count, take, sort_with,
}
use nightowl.Base.Windows.{drop}
use nightowl.Sql.{Sql, SqlError, ok, pure, query, ◌>>=◌, wrap}
use nightowl.Schema.{Database, Incident, HistoryEntry}
use nightowl.Incident.Store.{get_incident, get_by_fingerprint, has_string}
use nightowl.Incident.Service.{IncidentError, IncidentResponse, getting, respond}

pub record ListFilters : Type 0 where
  pub severity : String
  pub category : String
  pub service : String
  pub tags : List String

abbrev pub is_text : Option String → String → Bool
is_text none s = false
is_text (some t) s = str_eq t s

-- `tags && $n`: the arrays have an element in common.
abbrev pub overlaps : List String → List String → Bool
overlaps [] tags = false
overlaps (t ∷ ts) tags = has_string t tags || overlaps ts tags

abbrev pub has_none : List String → Bool
has_none [] = true
has_none (t ∷ ts) = false

-- buildFilterClauses: a filter that is not given tests nothing.
unfoldable pub passes : ListFilters → Incident → Bool
passes f i =
    is_none i.merged_into_id
    && (str_eq f.severity "" || str_eq i.severity f.severity)
    && (str_eq f.category "" || is_text i.category f.category)
    && (str_eq f.service "" || has_string f.service i.services)
    && (has_none f.tags || overlaps i.tags f.tags)

-- ORDER BY created_at DESC, where `tie` decides for equal times.
abbrev pub newest_first : (Incident → Incident → Bool) → Incident → Incident → Bool
newest_first tie i j = ltb j.created_at i.created_at || ((i.created_at == j.created_at) && tie i j)

-- How each statement orders incidents of equal times, by its limit and its offset.
abbrev pub Ties : Type 0
Ties = ℕ → ℕ → Incident → Incident → Bool

unfoldable pub list_filtered : Ties → ListFilters → ℕ → ℕ → Sql Database SqlError (List Incident)
list_filtered ties f limit offset = query λ db. ok (
    take limit
      (drop offset (sort_with (newest_first (ties limit offset)) (select (passes f) db.incidents))))

unfoldable pub count_filtered : ListFilters → Sql Database SqlError ℕ
count_filtered f = query (λ db. ok (count (passes f) db.incidents))

unfoldable pub list_history_rows : ℕ → Sql Database SqlError (List HistoryEntry)
list_history_rows id = query λ db. ok (
    sort_with (λ h k. leb k.created_at h.created_at)
      (select (λ h. h.incident_id == id) db.incident_history))

unfoldable pub list_merged_rows : ℕ → Sql Database SqlError (List Incident)
list_merged_rows id = query λ db. ok (
    sort_with (λ i j. leb j.updated_at i.updated_at)
      (select (λ i. is_some_of i.merged_into_id id && not (i.id == id)) db.incidents))

-- The loop of List over its rows.
unfoldable pub respond_all : List Incident → Sql Database IncidentError (List IncidentResponse)
respond_all [] = pure []
respond_all (row ∷ rows) = do r ← respond row; rs ← respond_all rows; pure (r ∷ rs)

unfoldable pub list_incidents :
    Ties → ListFilters → ℕ → ℕ → Sql Database IncidentError (List IncidentResponse × ℕ)
list_incidents ties f limit offset = do
  rows ← wrap getting (list_filtered ties f limit offset)
  total ← wrap getting (count_filtered f)
  items ← respond_all rows
  pure (items, total)

unfoldable pub get_detail : ℕ → Sql Database IncidentError (IncidentResponse × List HistoryEntry)
get_detail id = do
  row ← wrap getting (get_incident id)
  history ← wrap getting (list_history_rows id)
  r ← respond row
  pure (r, history)

unfoldable pub list_history : ℕ → Sql Database IncidentError (List HistoryEntry)
list_history id = do _ ← wrap getting (get_incident id); wrap getting (list_history_rows id)

unfoldable pub list_merged_sources : ℕ → Sql Database IncidentError (List Incident)
list_merged_sources id = wrap getting (list_merged_rows id)

unfoldable pub find_by_fingerprint : String → Sql Database IncidentError IncidentResponse
find_by_fingerprint fingerprint = do
  row ← wrap getting (get_by_fingerprint fingerprint)
  respond row

module _ (matches : String → Incident → Bool)
    (ranks_before : String → Incident → Incident → Bool) where
  unfoldable pub search_rows : String → ℕ → Sql Database SqlError (List Incident)
  search_rows text limit = query λ db. ok (
      take limit (
        sort_with (ranks_before text)
          (select (λ i. matches text i && is_none i.merged_into_id) db.incidents)))

  -- A limit that is not positive or above 100 becomes 25.
  unfoldable pub search_incidents : String → ℕ → Sql Database IncidentError (List Incident)
  search_incidents text limit =
      let checked = if leb limit 0 || ltb 100 limit then 25 else limit in
      wrap getting (search_rows text checked)
