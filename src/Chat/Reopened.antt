-- ===== src/Chat/Reopened.antt =====
-- The `ack` commands of Mattermost (pkg/mattermost/commands.go) and Slack (pkg/slack/handler.go).
use mathlib.Core.Option
use nightowl.Base.{
  ℕ, ◌≡◌, refl, ◌∙◌, ap, String, List, ◌∷◌, Option, none, some, ◌==◌, find, update,
  find-update_same,
}
use nightowl.Sql.{healthy, exec, statement, attempt, ◌>>=◌, pure}
use nightowl.Schema.{Database, Alert}
use nightowl.Alerts.Store.{acknowledge_alert}
use nightowl.Chat.Queries.{Externals, acquire_tenant_conn}
use nightowl.Chat.Commands.{handle_ack_cmd, with_conn}
use nightowl.Chat.Slack.{handle_ack_command, slack_with_conn}

abbrev pub acknowledged_now : ℕ → Alert → Alert
acknowledged_now now a = record a {
  status = "acknowledged";
  acknowledged_by = none;
  acknowledged_at = some now;
  updated_at = now;
}

abbrev pub row_of_alert : ℕ → Database → Option Alert
row_of_alert id db = find (λ a. a.id == id) db.alerts

acknowledged_row :
    (id : ℕ) (db : Database) (a : Alert)
    → row_of_alert id db ≡ some a
    → find (λ a. a.id == id) (update (λ a. a.id == id) (acknowledged_now db.now) db.alerts)
      ≡ some (acknowledged_now db.now a)
acknowledged_row id db a found =
    find-update_same (λ a. a.id == id) (acknowledged_now db.now) db.alerts (λ x. refl)
    ∙ ap (Option.map (acknowledged_now db.now)) found

-- Where nothing fails, the `ack` commands of Mattermost and of Slack make an alert acknowledged,
-- by nobody, whatever its status was: also one that is resolved.
pub ack_commands_acknowledge :
    (ext : Externals) (user w : String) (ws : List String) (id : ℕ) (db : Database) (a : Alert)
    → ext.parse_id w ≡ some id
    → row_of_alert id db ≡ some a
    → (row_of_alert id (handle_ack_cmd ext user (w ∷ ws) (healthy db)).1.db
        ≡ some (acknowledged_now db.now a))
      × (row_of_alert id (handle_ack_command ext user (w ∷ ws) (healthy db)).1.db
          ≡ some (acknowledged_now db.now a))
unfolding handle_ack_cmd handle_ack_command with_conn slack_with_conn acquire_tenant_conn
    acknowledge_alert exec statement attempt ◌>>=◌ pure
ack_commands_acknowledge ext user w ws id db a parsed found =
    rw (parsed, found) (acknowledged_row id db a found, acknowledged_row id db a found)
