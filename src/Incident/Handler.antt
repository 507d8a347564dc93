-- ===== src/Incident/Handler.antt =====
-- The HTTP handlers of incidents (pkg/incident/handler.go), with an audit writer. A body that
-- DecodeAndValidate of the HTTP library refuses is `none`, and so is a page that its
-- ParseOffsetParams refuses; both answer 400 or 422 themselves. `parse` is uuid.Parse, and `atoi` is
-- strconv.Atoi, `none` also for a negative number, which is refused alike.
use nightowl.Base.{
  ℕ, String, str_eq, Bool, true, false, List, Option, none, some, ltb, if◌then◌else◌,
}
use nightowl.Sql.{Sql, SqlError, Result, ok, err, pure, modify, ◌>>=◌, attempt}
use nightowl.Schema.{Database, Incident, HistoryEntry}
pub use nightowl.Http.{
  Answer, answered, bad_request, not_found, unprocessable, internal_error, not_found_or,
}
use nightowl.Alerts.Store.{with_audit}
use nightowl.Incident.Service.{
  IncidentError, parsing_runbook_id, into_itself, target_merged, source_merged, creating, getting,
  updating, archiving, getting_target, getting_source, updating_target, marking_source, setting_url,
  IncidentRequest, IncidentResponse, create, update_incident, archive, merge, set_post_mortem_url,
}
use nightowl.Incident.Listing.{
  Ties, ListFilters, list_incidents, get_detail, list_history, list_merged_sources,
  find_by_fingerprint, search_incidents,
}

-- The error of the driver that an error wraps.
abbrev pub cause : IncidentError → Option SqlError
cause parsing_runbook_id = none
cause into_itself = none
cause target_merged = none
cause source_merged = none
cause (creating e) = some e
cause (getting e) = some e
cause (updating e) = some e
cause (archiving e) = some e
cause (getting_target e) = some e
cause (getting_source e) = some e
cause (updating_target e) = some e
cause (marking_source e) = some e
cause (setting_url e) = some e

unfoldable pub error_answer : {A : Type 0} → IncidentError → Answer A
error_answer e = not_found_or (cause e) internal_error

-- Whether the text of the error contains "cannot merge" or "already merged".
abbrev pub is_merge_refusal : IncidentError → Bool
is_merge_refusal into_itself = true
is_merge_refusal target_merged = true
is_merge_refusal source_merged = true
is_merge_refusal _ = false

unfoldable pub merge_error_answer : {A : Type 0} → IncidentError → Answer A
merge_error_answer e =
    not_found_or (cause e) (if is_merge_refusal e then unprocessable else internal_error)

abbrev pub Handled : Type 0 → Type 0
Handled A = Sql Database IncidentError (Answer A)

-- A read's result, or its error as an answer.
abbrev pub read_answer : {A : Type 0} → Result IncidentError A → Answer A
read_answer (ok a) = answered a
read_answer (err e) = error_answer e

abbrev pub failed_answer : {A : Type 0} → Result IncidentError A → Answer A
failed_answer (ok a) = answered a
failed_answer (err e) = internal_error

-- LogFromRequest for a change that succeeded, or the answer to its error.
unfoldable pub logged :
    {A : Type 0}
    → String
    → (A → ℕ)
    → (IncidentError → Answer A)
    → Result IncidentError A
    → Handled A
logged action id_of refuse (ok a) =
    modify (with_audit action "incident" (id_of a)) >>= λ _. pure (answered a)
logged action id_of refuse (err e) = pure (refuse e)

abbrev pub response_id : IncidentResponse → ℕ
response_id r = r.row.id

abbrev pub always_internal : {A : Type 0} → IncidentError → Answer A
always_internal e = internal_error

module _ (parse : String → Option ℕ) where
  unfoldable pub handle_create : Option IncidentRequest → Option ℕ → Handled IncidentResponse
  handle_create none user = pure bad_request
  handle_create (some request) user = do
    r ← attempt (create parse request user)
    logged "create" response_id always_internal r

  unfoldable pub handle_list :
      Ties → ListFilters → Option (ℕ × ℕ) → Handled (List IncidentResponse × ℕ)
  handle_list ties f none = pure bad_request
  handle_list ties f (some (size, offset)) = do
    r ← attempt (list_incidents ties f size offset)
    pure (failed_answer r)

  -- An id that does not parse.
  abbrev pub with_id : {A : Type 0} → Option ℕ → (ℕ → Handled A) → Handled A
  with_id none k = pure bad_request
  with_id (some id) k = k id

  unfoldable pub handle_get : String → Handled (IncidentResponse × List HistoryEntry)
  handle_get id = with_id (parse id) (λ n. do r ← attempt (get_detail n); pure (read_answer r))

  abbrev pub updated_with : ℕ → Option IncidentRequest → Option ℕ → Handled IncidentResponse
  updated_with id none user = pure bad_request
  updated_with id (some request) user = do
    r ← attempt (update_incident parse id request user)
    logged "update" response_id error_answer r

  unfoldable pub handle_update :
      String → Option IncidentRequest → Option ℕ → Handled IncidentResponse
  handle_update id request user = with_id (parse id) (λ n. updated_with n request user)

  unfoldable pub handle_delete : String → Option ℕ → Handled (Unit {0})
  handle_delete id user =
      with_id (parse id)
        (λ n. do r ← attempt (archive n user); logged "delete" (λ _. n) error_answer r)

  unfoldable pub handle_list_history : String → Handled (List HistoryEntry)
  handle_list_history id =
      with_id (parse id) (λ n. do r ← attempt (list_history n); pure (read_answer r))

  unfoldable pub handle_list_merged_sources : String → Handled (List Incident)
  handle_list_merged_sources id =
      with_id (parse id) (λ n. do r ← attempt (list_merged_sources n); pure (failed_answer r))

  abbrev pub merged_with : ℕ → Option String → Option ℕ → Handled IncidentResponse
  merged_with target none user = pure bad_request
  merged_with target (some source) user =
      with_id (parse source) (λ n. do
        r ← attempt (merge target n user)
        logged "merge" (λ _. target) merge_error_answer r)

  -- The request's body is the text of the source's id.
  unfoldable pub handle_merge : String → Option String → Option ℕ → Handled IncidentResponse
  handle_merge target source user = with_id (parse target) (λ n. merged_with n source user)

  abbrev pub url_with : ℕ → Option String → Option ℕ → Handled IncidentResponse
  url_with id none user = pure bad_request
  url_with id (some url) user = do
    r ← attempt (set_post_mortem_url id url user)
    logged "set_post_mortem_url" response_id error_answer r

  unfoldable pub handle_set_post_mortem_url :
      String → Option String → Option ℕ → Handled IncidentResponse
  handle_set_post_mortem_url id url user = with_id (parse id) (λ n. url_with n url user)

unfoldable pub handle_get_by_fingerprint : String → Handled IncidentResponse
handle_get_by_fingerprint fingerprint =
    if str_eq fingerprint ""
    then pure bad_request
    else (attempt (find_by_fingerprint fingerprint) >>= λ r. pure (read_answer r))

-- The limit of a search: 25, or the given one, at most 100.
abbrev pub given_limit : Option ℕ → Option ℕ
given_limit none = none
given_limit (some n) = if ltb n 1 then none else if ltb 100 n then some 100 else some n

unfoldable pub search_limit : (String → Option ℕ) → String → Option ℕ
search_limit atoi v = if str_eq v "" then some 25 else given_limit (atoi v)

module _ (matches : String → Incident → Bool) (ranks_before : String → Incident → Incident → Bool)
    (atoi : String → Option ℕ) where
  abbrev searched : String → Option ℕ → Handled (List Incident)
  searched text none = pure bad_request
  searched text (some limit) = do
    r ← attempt (search_incidents matches ranks_before text limit)
    pure (failed_answer r)

  unfoldable pub handle_search : String → String → Handled (List Incident)
  handle_search text limit =
      if str_eq text "" then pure bad_request else searched text (search_limit atoi limit)
