-- ===== src/Incident/Audited.antt =====
-- Which requests on incidents leave an audit entry (pkg/incident/handler.go).
use nightowl.Base.{
  ℕ, String, Bool, true, false, List, [], ◌++◌, Option, none, some, ◌≡◌, refl, ap, ◌∙◌, sym,
  if◌then◌else◌,
}
use mathlib.Core.List.{append-nil}
use nightowl.Sql.{
  Conn, Sql, SqlError, no_rows, failed, Result, ok, err, pure, modify, ◌>>=◌, attempt,
}
use nightowl.Sql.Preserves.{Preserves}
use nightowl.Schema.{Database, AuditEntry}
use nightowl.Alerts.Store.{accepted}
use nightowl.Incident.Service.{
  IncidentError, IncidentRequest, create, update_incident, archive, merge, set_post_mortem_url,
}
use nightowl.Incident.Unlogged.{
  Unlogged, trail, create-Unlogged, change-Unlogged, archive-Unlogged, post_mortem-Unlogged,
  merge-Unlogged,
}
use nightowl.Incident.Handler.{
  Answer, answered, bad_request, not_found, not_found_or, cause, is_merge_refusal, updated_with,
  url_with, merged_with, unprocessable, internal_error, Handled, logged, error_answer,
  merge_error_answer, handle_create, handle_update, handle_delete, handle_merge,
  handle_set_post_mortem_url, response_id, with_id,
}

-- The entry that an answer stands for, where the first call of Log finds the buffer as `full` says.
abbrev pub entries_of :
    {A : Type 0} → String → (A → ℕ) → List Bool → Result IncidentError (Answer A) → List AuditEntry
entries_of action id_of full (err e) = []
entries_of action id_of full (ok (answered a)) =
    accepted full (record { action = action; resource = "incident"; resource_id = id_of a })
entries_of action id_of full (ok bad_request) = []
entries_of action id_of full (ok not_found) = []
entries_of action id_of full (ok unprocessable) = []
entries_of action id_of full (ok internal_error) = []

-- On every connection, the audit writer accepts an entry of the handler exactly if the handler
-- answers with success and the buffer is not full.
abbrev pub IsAudited : {A : Type 0} → String → (A → ℕ) → Handled A → Type 0
IsAudited action id_of h =
    (c : Conn Database)
    → (h c).1.db.audit_log ≡ c.db.audit_log ++ entries_of action id_of c.db.buffer_full (h c).0

-- An answer to an error that stands for no entry.
abbrev IsSilent : {A : Type 0} → String → (A → ℕ) → Answer A → Type 0
IsSilent action id_of answer = (full : List Bool) → entries_of action id_of full (ok answer) ≡ []

module _ {A : Type 0} (action : String) (id_of : A → ℕ) where
  logged-IsAudited :
      (refuse : IncidentError → Answer A)
      → ((e : IncidentError) → IsSilent action id_of (refuse e))
      → (r : Result IncidentError A) → IsAudited action id_of (logged action id_of refuse r)
  unfolding logged modify ◌>>=◌ pure
  logged-IsAudited refuse refused (ok a) c = refl
  logged-IsAudited refuse refused (err e) c =
      rw (refused e c.db.buffer_full) (sym (append-nil c.db.audit_log))

  bad_request-IsAudited : IsAudited action id_of (pure bad_request)
  unfolding pure
  bad_request-IsAudited c = sym (append-nil c.db.audit_log)

  call-IsAudited :
      (refuse : IncidentError → Answer A)
      → ((e : IncidentError) → IsSilent action id_of (refuse e))
      → (m : Sql Database IncidentError A)
      → ((log : List AuditEntry × List Bool) → Preserves (Unlogged log) m)
      → IsAudited action id_of (attempt m >>= logged action id_of refuse)
  unfolding attempt ◌>>=◌
  call-IsAudited refuse refused m keeps c =
      logged-IsAudited refuse refused (m c).0 (m c).1
      ∙ ap (λ t. t.0 ++ entries_of action id_of t.1 (logged action id_of refuse (m c).0 (m c).1).0)
          ((keeps (trail c.db)).keep c refl)

not_found_or-IsSilent :
    {A : Type 0} (action : String) (id_of : A → ℕ) (e : Option SqlError) (other : Answer A)
    → IsSilent action id_of other
    → IsSilent action id_of (not_found_or e other)
not_found_or-IsSilent action id_of none other h = h
not_found_or-IsSilent action id_of (some no_rows) other h = λ full. refl
not_found_or-IsSilent action id_of (some failed) other h = h

error_answer-IsSilent :
    {A : Type 0} (action : String) (id_of : A → ℕ) (e : IncidentError)
    → IsSilent action id_of (error_answer e)
unfolding error_answer
error_answer-IsSilent action id_of e =
    not_found_or-IsSilent action id_of (cause e) internal_error (λ full. refl)

refusal-IsSilent :
    {A : Type 0} (action : String) (id_of : A → ℕ) (b : Bool)
    → IsSilent action id_of (if b then unprocessable else internal_error)
refusal-IsSilent action id_of true = λ full. refl
refusal-IsSilent action id_of false = λ full. refl

merge_error_answer-IsSilent :
    {A : Type 0} (action : String) (id_of : A → ℕ) (e : IncidentError)
    → IsSilent action id_of (merge_error_answer e)
unfolding merge_error_answer
merge_error_answer-IsSilent action id_of e =
    not_found_or-IsSilent action id_of (cause e)
      (if is_merge_refusal e then unprocessable else internal_error)
      (refusal-IsSilent action id_of (is_merge_refusal e))

-- The number of an id that parses.
abbrev pub number_of : Option ℕ → ℕ
number_of none = 0
number_of (some n) = n

module _ (parse : String → Option ℕ) (user : Option ℕ) where
  create-IsAudited :
      (request : Option IncidentRequest)
      → IsAudited "create" response_id (handle_create parse request user)
  unfolding handle_create
  create-IsAudited none = bad_request-IsAudited "create" response_id
  create-IsAudited (some request) =
      call-IsAudited "create" response_id _ (λ e full. refl) (create parse request user)
        (λ log. create-Unlogged log parse request user)

  update-IsAudited :
      (id : Option ℕ) (request : Option IncidentRequest)
      → IsAudited "update" response_id (with_id parse id (λ n. updated_with parse n request user))
  update-IsAudited none request = bad_request-IsAudited "update" response_id
  update-IsAudited (some n) none = bad_request-IsAudited "update" response_id
  update-IsAudited (some n) (some request) =
      call-IsAudited "update" response_id error_answer (error_answer-IsSilent "update" response_id)
        (update_incident parse n request user) (λ log. change-Unlogged log parse n request user)

  delete-IsAudited :
      (id : Option ℕ)
      → IsAudited "delete"
          (λ _. number_of id)
          (with_id parse id
            (λ n. attempt (archive n user) >>= logged "delete" (λ _. n) error_answer))
  delete-IsAudited none = bad_request-IsAudited "delete" (λ _. 0)
  delete-IsAudited (some n) =
      call-IsAudited "delete" (λ _. n) error_answer (error_answer-IsSilent "delete" (λ _. n))
        (archive n user) (λ log. archive-Unlogged log n user)

  url-IsAudited :
      (id : Option ℕ) (url : Option String)
      → IsAudited "set_post_mortem_url" response_id
          (with_id parse id (λ n. url_with parse n url user))
  url-IsAudited none url = bad_request-IsAudited "set_post_mortem_url" response_id
  url-IsAudited (some n) none = bad_request-IsAudited "set_post_mortem_url" response_id
  url-IsAudited (some n) (some url) =
      call-IsAudited "set_post_mortem_url" response_id error_answer
        (error_answer-IsSilent "set_post_mortem_url" response_id) (set_post_mortem_url n url user)
        (λ log. post_mortem-Unlogged log n url user)

  source-IsAudited :
      (target : ℕ) (source : Option ℕ)
      → IsAudited "merge"
          (λ _. target)
          (with_id parse source (λ n.
            attempt (merge target n user) >>= logged "merge" (λ _. target) merge_error_answer))
  source-IsAudited target none = bad_request-IsAudited "merge" (λ _. target)
  source-IsAudited target (some n) =
      call-IsAudited "merge" (λ _. target) merge_error_answer
        (merge_error_answer-IsSilent "merge" (λ _. target)) (merge target n user)
        (λ log. merge-Unlogged log target n user)

  merge-IsAudited :
      (target : Option ℕ) (source : Option String)
      → IsAudited "merge"
          (λ _. number_of target)
          (with_id parse target (λ n. merged_with parse n source user))
  merge-IsAudited none source = bad_request-IsAudited "merge" (λ _. 0)
  merge-IsAudited (some n) none = bad_request-IsAudited "merge" (λ _. n)
  merge-IsAudited (some n) (some source) = source-IsAudited n (parse source)

  -- Whichever statements fail, a request that creates, changes, archives or merges incidents or
  -- sets a post-mortem link gives the audit writer one entry, with the number of the incident, if it
  -- answers with success, and none if it answers with an error; the entry is accepted unless the
  -- writer's buffer is full, where it is dropped.
  pub changes-IsAudited :
      (request : Option IncidentRequest) (id : String) (text : Option String)
      → IsAudited "create" response_id (handle_create parse request user)
        × IsAudited "update" response_id (handle_update parse id request user)
        × IsAudited "delete" (λ _. number_of (parse id)) (handle_delete parse id user)
        × IsAudited "merge" (λ _. number_of (parse id)) (handle_merge parse id text user)
        × IsAudited "set_post_mortem_url" response_id
            (handle_set_post_mortem_url parse id text user)
  unfolding handle_update handle_delete handle_merge handle_set_post_mortem_url
  changes-IsAudited request id text = (
    create-IsAudited request,
    update-IsAudited (parse id) request,
    delete-IsAudited (parse id),
    merge-IsAudited (parse id) text,
    url-IsAudited (parse id) text,
  )
