-- ===== src/Chat/Interactions.antt =====
-- The buttons and dialogs of Mattermost (pkg/mattermost/interactions.go), for a payload that decodes.
use nightowl.Base.{ℕ, String, str_eq, Bool, ◌||◌, List, Option, none, some, if◌then◌else◌}
use nightowl.Base.Texts.{◌<>◌}
use nightowl.Sql.{Sql, SqlError, NoError, Result, ok, err, pure, ◌>>=◌, attempt}
use nightowl.Schema.{Database, Incident, Alert}
use nightowl.Alerts.Store.{get_alert, acknowledge_alert}
use nightowl.Chat.Attachments.{Attachment, alert_acknowledged_attachments}
use nightowl.Chat.Queries.{Externals, acquire_tenant_conn, create_incident, dialog_params}

-- actionPayload: what is used of it, with the context's texts.
pub record ActionPayload : Type 0 where
  pub user_name : String
  pub action : String
  pub alert_id : String

-- actionResponse
pub record ActionResponse : Type 0 where
  pub update : Option (List Attachment)
  pub ephemeral_text : String

abbrev pub only_text : String → ActionResponse
only_text text = record { update = none; ephemeral_text = text }

abbrev pub ActionCall : Type 0
ActionCall = Sql Database NoError ActionResponse

abbrev pub is_settled : Alert → Bool
is_settled a = str_eq a.status "acknowledged" || str_eq a.status "resolved"

unfoldable pub acknowledged_response : String → Alert → Result SqlError Alert → ActionResponse
acknowledged_response user a (ok row) = record {
  update = some (alert_acknowledged_attachments a.title ("@" <> user));
  ephemeral_text = "Alert acknowledged.";
}
acknowledged_response user a (err e) = only_text "Failed to acknowledge alert."

unfoldable pub ack_found : ℕ → String → Result SqlError Alert → ActionCall
ack_found id user (err e) = pure (only_text "Alert not found.")
ack_found id user (ok a) =
    if is_settled a
    then pure (only_text ("Alert is already " <> a.status <> "."))
    else do r ← attempt (acknowledge_alert id none); pure (acknowledged_response user a r)

abbrev pub ack_connected : ℕ → String → Result SqlError (Unit {0}) → ActionCall
ack_connected id user (err e) = pure (only_text "Internal error.")
ack_connected id user (ok _) = attempt (get_alert id) >>= ack_found id user

abbrev pub ack_parsed : String → Option ℕ → ActionCall
ack_parsed user none = pure (only_text "Invalid alert ID.")
ack_parsed user (some id) = attempt acquire_tenant_conn >>= ack_connected id user

-- dialogPayload: what is used of it; a field that is missing is an empty text.
pub record DialogPayload : Type 0 where
  pub callback_id : String
  pub title : String
  pub severity : String
  pub symptoms : String
  pub solution : String

-- An empty answer closes the dialog, an error is shown in it.
pub data DialogReply : Type 0 where
  closed : DialogReply
  dialog_error : String → DialogReply

abbrev pub DialogCall : Type 0
DialogCall = Sql Database NoError DialogReply

abbrev pub created_reply : Result SqlError Incident → DialogReply
created_reply (ok row) = closed
created_reply (err e) = dialog_error "Failed to create incident"

abbrev pub create_connected : DialogPayload → Result SqlError (Unit {0}) → DialogCall
create_connected p (err e) = pure (dialog_error "Internal error")
create_connected p (ok _) = do
  r ← attempt (create_incident (dialog_params p.title p.severity p.symptoms p.solution))
  pure (created_reply r)

unfoldable pub handle_create_incident_dialog : DialogPayload → DialogCall
handle_create_incident_dialog p = attempt acquire_tenant_conn >>= create_connected p

unfoldable pub handle_dialogs : DialogPayload → DialogCall
handle_dialogs p =
    if str_eq p.callback_id "create_incident" then handle_create_incident_dialog p else pure closed

module _ (ext : Externals) where
  unfoldable pub handle_ack_action : ActionPayload → ActionCall
  handle_ack_action p = ack_parsed p.user_name (ext.parse_id p.alert_id)

  unfoldable pub handle_escalate_action : ActionPayload → ActionCall
  handle_escalate_action p =
      pure (only_text ("Escalation triggered for alert " <> p.alert_id <> "."))

  unfoldable pub handle_actions : ActionPayload → ActionCall
  handle_actions p =
      if str_eq p.action "ack"
      then handle_ack_action p
      else if str_eq p.action "escalate"
      then handle_escalate_action p
      else pure (only_text ("Unknown action: " <> p.action))
