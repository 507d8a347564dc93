-- ===== src/Chat/SlackActions.antt =====
-- The buttons and dialogs of Slack (pkg/slack/handler.go and notifier.go), for a payload that
-- decodes. A post to Slack goes to the list `posts` and may fail, which is ignored; `enabled` says
-- whether the notifier has a client and a channel.
use nightowl.Base.{
  ℕ, String, str_eq, Bool, ◌&&◌, List, [], ◌∷◌, ◌++◌, Option, none, some, is_some_of, find,
  if◌then◌else◌,
}
use nightowl.Base.Texts.{◌<>◌}
use nightowl.Sql.{Sql, SqlError, NoError, Result, ok, err, pure, query, exec, ◌>>=◌, ◌>>◌, attempt}
use nightowl.Schema.{Database, Alert, MessageMapping, Post, thread_reply, ephemeral, incident_modal}
use nightowl.Roster.Store.{one_row}
use nightowl.Alerts.Store.{get_alert, acknowledge_alert}
use nightowl.Chat.Queries.{Externals, acquire_tenant_conn, create_incident, dialog_params}
use nightowl.Chat.Interactions.{is_settled}

-- What is used of an InteractionCallback of block actions: pairs of an action's id and value.
pub record Callback : Type 0 where
  pub channel_id : String
  pub user_id : String
  pub actions : List (String × String)

-- The fields of the dialog.
pub record Submission : Type 0 where
  pub callback_id : String
  pub title : String
  pub severity : String
  pub symptoms : String
  pub solution : String

abbrev pub Effect : Type 0
Effect = Sql Database NoError (Unit {0})

-- A post whose failure is ignored.
abbrev pub post : Bool → Post → Effect
post enabled p =
    if enabled
    then (attempt {E = SqlError} (exec (λ db. record db { posts = db.posts ++ p ∷ [] })) >>= λ _.
        pure tt)
    else pure tt

unfoldable pub slack_mapping : ℕ → Sql Database SqlError MessageMapping
slack_mapping id = query λ db.
    one_row (find (λ m. is_some_of m.alert_id id && str_eq m.provider "slack") db.message_mappings)

-- A mapping that cannot be read leaves the message's id empty.
unfoldable pub reply_in_thread : Bool → String → Result SqlError MessageMapping → Effect
reply_in_thread enabled user (err e) = pure tt
reply_in_thread enabled user (ok m) =
    if str_eq m.message_id ""
    then pure tt
    else post enabled
        (thread_reply m.channel_id m.message_id ("✅ Acknowledged by <@" <> user <> ">"))

unfoldable pub after_ack : Bool → Callback → ℕ → Result SqlError Alert → Effect
after_ack enabled ic id (err e) = pure tt
after_ack enabled ic id (ok row) = do
  m ← attempt (slack_mapping id)
  reply_in_thread enabled ic.user_id m
  post enabled (ephemeral ic.channel_id ic.user_id "Alert acknowledged.")

unfoldable pub ack_loaded : Bool → Callback → ℕ → Result SqlError Alert → Effect
ack_loaded enabled ic id (err e) = pure tt
ack_loaded enabled ic id (ok a) =
    if is_settled a
    then post enabled (ephemeral ic.channel_id ic.user_id ("Alert is already " <> a.status <> "."))
    else attempt (acknowledge_alert id none) >>= after_ack enabled ic id

abbrev pub ack_open : Bool → Callback → ℕ → Result SqlError (Unit {0}) → Effect
ack_open enabled ic id (err e) = pure tt
ack_open enabled ic id (ok _) = attempt (get_alert id) >>= ack_loaded enabled ic id

abbrev pub slack_ack_parsed : Bool → Callback → Option ℕ → Effect
slack_ack_parsed enabled ic none = pure tt
slack_ack_parsed enabled ic (some id) = attempt acquire_tenant_conn >>= ack_open enabled ic id

unfoldable pub slack_escalate_action : Bool → Callback → String → Effect
slack_escalate_action enabled ic id_text =
    post enabled
      (ephemeral ic.channel_id ic.user_id ("Escalation triggered for alert " <> id_text <> "."))

-- The value of the first button that opens the dialog.
unfoldable pub modal_alert_id : List (String × String) → String
modal_alert_id [] = ""
modal_alert_id ((id, value) ∷ rest) =
    if str_eq id "create_incident_modal" then value else modal_alert_id rest

abbrev pub text_or_empty : Option String → String
text_or_empty none = ""
text_or_empty (some s) = s

abbrev pub open_modal : Bool → String → Result SqlError Alert → Effect
open_modal enabled value (err e) = post enabled (incident_modal value "" "" "")
open_modal enabled value (ok a) =
    post enabled (incident_modal value a.title (text_or_empty a.description) a.severity)

abbrev pub modal_open : Bool → String → ℕ → Result SqlError (Unit {0}) → Effect
modal_open enabled value id (err e) = post enabled (incident_modal value "" "" "")
modal_open enabled value id (ok _) = attempt (get_alert id) >>= open_modal enabled value

abbrev pub modal_parsed : Bool → String → Option ℕ → Effect
modal_parsed enabled value none = post enabled (incident_modal value "" "" "")
modal_parsed enabled value (some id) = attempt acquire_tenant_conn >>= modal_open enabled value id

abbrev pub submit_connected : Submission → Result SqlError (Unit {0}) → Effect
submit_connected s (err e) = pure tt
submit_connected s (ok _) = do
  _ ← attempt (create_incident (dialog_params s.title s.severity s.symptoms s.solution))
  pure tt

unfoldable pub handle_create_incident_submit : Submission → Effect
handle_create_incident_submit s = attempt acquire_tenant_conn >>= submit_connected s

-- The answer is 200 in every case.
unfoldable pub handle_view_submission : Submission → Effect
handle_view_submission s =
    if str_eq s.callback_id "create_incident_submit"
    then handle_create_incident_submit s
    else pure tt

module _ (ext : Externals) (enabled : Bool) where
  unfoldable pub slack_ack_action : Callback → String → Effect
  slack_ack_action ic value = slack_ack_parsed enabled ic (ext.parse_id value)

  unfoldable pub handle_create_incident_modal : Callback → Effect
  handle_create_incident_modal ic =
      let value = modal_alert_id ic.actions in
      if str_eq value ""
      then post enabled (incident_modal value "" "" "")
      else modal_parsed enabled value (ext.parse_id value)

  unfoldable pub block_action : Callback → String → String → Effect
  block_action ic id value =
      if str_eq id "ack_alert"
      then slack_ack_action ic value
      else if str_eq id "escalate_alert"
      then slack_escalate_action enabled ic value
      else if str_eq id "create_incident_modal"
      then handle_create_incident_modal ic
      else pure tt

  unfoldable pub block_actions : Callback → List (String × String) → Effect
  block_actions ic [] = pure tt
  block_actions ic ((id, value) ∷ rest) = do block_action ic id value; block_actions ic rest

  unfoldable pub handle_block_actions : Callback → Effect
  handle_block_actions ic = block_actions ic ic.actions
