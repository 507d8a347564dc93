-- ===== src/Chat/Refused.antt =====
-- Incidents from the chat (handleCreateIncidentDialog of pkg/mattermost/interactions.go and
-- handleCreateIncidentSubmit of pkg/slack/handler.go).
use nightowl.Base.{String, Bool, true, false, List, [], ◌∷◌, ◌≡◌, ◌≢◌, refl}
use nightowl.Sql.{
  Conn, SqlError, failed, Result, ok, err, statement, attempt, ◌>>=◌, pure, run_statement,
}
use nightowl.Sql.Preserves.{
  Preserves, preserves_rules, statement-Preserves, exec-Preserves, bind-Preserves,
}
use nightowl.Schema.{Database, Incident}
use nightowl.Chat.Queries.{acquire_tenant_conn, create_incident, dialog_params, insert_given}
use nightowl.Chat.Interactions.{
  DialogPayload, closed, create_connected, handle_create_incident_dialog,
}
use nightowl.Chat.SlackActions.{Submission, submit_connected, handle_create_incident_submit}

module _ (P : Database → Type 0) where
  acquire-Preserves : Preserves P acquire_tenant_conn
  unfolding acquire_tenant_conn
  acquire-Preserves =
      bind-Preserves _ _ (exec-Preserves _ (λ db h. h)) (λ _. exec-Preserves _ (λ db h. h))

  create-Preserves :
      (title severity symptoms solution : String)
      → Preserves P (create_incident (dialog_params title severity symptoms solution))
  unfolding create_incident
  create-Preserves title severity symptoms solution = statement-Preserves _ (λ db h. h)

  connected-Preserves :
      (p : DialogPayload) (r : Result SqlError (Unit {0})) → Preserves P (create_connected p r)
  connected-Preserves p (ok _) = search (preserves_rules, create-Preserves)
  connected-Preserves p (err e) = search preserves_rules

  submitted-Preserves :
      (s : Submission) (r : Result SqlError (Unit {0})) → Preserves P (submit_connected s r)
  submitted-Preserves s (ok _) = search (preserves_rules, create-Preserves)
  submitted-Preserves s (err e) = search preserves_rules

  dialog-Preserves : (p : DialogPayload) → Preserves P (handle_create_incident_dialog p)
  unfolding handle_create_incident_dialog
  dialog-Preserves p = search (preserves_rules, acquire-Preserves, connected-Preserves)

  submit-Preserves : (s : Submission) → Preserves P (handle_create_incident_submit s)
  unfolding handle_create_incident_submit
  submit-Preserves s = search (preserves_rules, acquire-Preserves, submitted-Preserves)

-- A statement that the tables refuse fails on every connection.
refused :
    (f : Database → Result SqlError Incident × Database) (s : Database) (faults : List Bool)
    → ((db : Database) → (f db).0 ≡ err failed)
    → (run_statement f s faults).0 ≡ err failed
refused f s [] h = h s
refused f s (false ∷ rest) h = h s
refused f s (true ∷ rest) h = refl

create-refused :
    (title severity symptoms solution : String) (c : Conn Database)
    → (create_incident (dialog_params title severity symptoms solution) c).0 ≡ err failed
unfolding create_incident statement
create-refused title severity symptoms solution c =
    refused (insert_given (dialog_params title severity symptoms solution)) c.db c.faults
      (λ db. refl)

connected-replies :
    (p : DialogPayload) (r : Result SqlError (Unit {0})) (c : Conn Database)
    → (create_connected p r c).0 ≢ ok closed
unfolding attempt ◌>>=◌ pure
connected-replies p (ok _) c h = cc (h, create-refused p.title p.severity p.symptoms p.solution c)
connected-replies p (err e) c h = cc h

-- No incident is ever created from the chat: the dialogs of Mattermost and of Slack leave the
-- database as it is, whatever fails, and Mattermost's never closes without an error.
pub dialogs_create_nothing :
    (p : DialogPayload) (s : Submission) (c : Conn Database)
    → ((handle_create_incident_dialog p c).1.db ≡ c.db)
      × ((handle_create_incident_dialog p c).0 ≢ ok closed)
      × ((handle_create_incident_submit s c).1.db ≡ c.db)
unfolding handle_create_incident_dialog attempt ◌>>=◌
dialogs_create_nothing p s c = (
  (dialog-Preserves (λ db. db ≡ c.db) p).keep c refl,
  connected-replies p (acquire_tenant_conn c).0 (acquire_tenant_conn c).1,
  (submit-Preserves (λ db. db ≡ c.db) s).keep c refl,
)
