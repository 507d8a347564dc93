-- ===== src/Tests/Chats.antt =====
-- Runs of the chat handlers.
use nightowl.Base.{String, List, ◌≡◌, ◌≢◌, refl, true, false, [], ◌∷◌, none, some}
use nightowl.Base.Texts.{join, is_space}
use nightowl.Sql.{healthy, Conn, ok}
use nightowl.Sql.Preserves.{Preserves}
use nightowl.Schema.{Database, Alert}
use nightowl.Chat.Queries.{Externals}
use nightowl.Chat.Commands.{
  handle_commands, handle_search_cmd, handle_on_call_cmd, handle_ack_cmd, handle_resolve_cmd,
  handle_roster_cmd,
}
use nightowl.Chat.Slack.{
  handle_slack_commands, handle_search_command, handle_on_call_command, handle_ack_command,
  handle_resolve_command, handle_roster_command,
}
use nightowl.Chat.Interactions.{
  ActionPayload, DialogPayload, closed, handle_create_incident_dialog, handle_actions,
}
use nightowl.Chat.SlackActions.{
  Callback, Submission, handle_create_incident_submit, handle_block_actions,
}
use nightowl.Chat.Words.{commands_run_by_name}
use nightowl.Chat.Refused.{dialogs_create_nothing}
use nightowl.Chat.Settled.{Stands}
use nightowl.Chat.Buttons.{buttons-Stands}
use nightowl.Chat.Reopened.{row_of_alert, acknowledged_now, ack_commands_acknowledge}
use nightowl.Tests.Data.{empty, alert_with}

abbrev ext : Externals
ext = record {
  parse_id = λ s. some 3;
  id_text = λ n. "3";
  to_lower = λ s. s;
  matches = λ s i. true;
  ranks_before = λ s i j. true;
  name_before = λ r s. true;
}

abbrev resolved_alert : Alert
resolved_alert = alert_with 3 "resolved" none (some 0)

abbrev with_resolved : Database
with_resolved = record empty { alerts = resolved_alert ∷ [] }

abbrev dialog : DialogPayload
dialog = record {
  callback_id = "create_incident";
  title = "disk full";
  severity = "major";
  symptoms = "writes fail";
  solution = "clean up";
}

abbrev submission : Submission
submission = record {
  callback_id = "create_incident_submit";
  title = "disk full";
  severity = "major";
  symptoms = "writes fail";
  solution = "clean up";
}

abbrev pressed : ActionPayload
pressed = record { user_name = "ada"; action = "ack"; alert_id = "3" }

abbrev callback : Callback
callback = record { channel_id = "C1"; user_id = "U1"; actions = ("ack_alert", "3") ∷ [] }

abbrev broken : Conn Database
broken = record { db = with_resolved; faults = false ∷ true ∷ [] }

abbrev notes : List String
notes = "3" ∷ "disk" ∷ "cleaned" ∷ []

commands_run_by_name_example :
    (handle_commands ext "ada" (join ("search" ∷ notes)) ≡ handle_search_cmd ext notes)
    × (handle_commands ext "ada" (join ("oncall" ∷ notes)) ≡ handle_on_call_cmd ext notes)
    × (handle_commands ext "ada" (join ("ack" ∷ notes)) ≡ handle_ack_cmd ext "ada" notes)
    × (handle_commands ext "ada" (join ("resolve" ∷ notes)) ≡ handle_resolve_cmd ext "ada" notes)
    × (handle_commands ext "ada" (join ("roster" ∷ notes)) ≡ handle_roster_cmd ext notes)
    × (handle_slack_commands ext "ada" (join ("search" ∷ notes)) ≡ handle_search_command ext notes)
    × (handle_slack_commands ext "ada" (join ("oncall" ∷ notes)) ≡ handle_on_call_command ext notes)
    × (handle_slack_commands ext "ada" (join ("ack" ∷ notes)) ≡ handle_ack_command ext "ada" notes)
    × (handle_slack_commands ext "ada" (join ("resolve" ∷ notes))
        ≡ handle_resolve_command ext "ada" notes)
    × (handle_slack_commands ext "ada" (join ("roster" ∷ notes)) ≡ handle_roster_command ext notes)
unfolding is_space
commands_run_by_name_example =
    commands_run_by_name ext "ada" notes
      (
        (refl, tt),
        (
          (refl, (refl, (refl, (refl, tt)))),
          ((refl, (refl, (refl, (refl, (refl, (refl, (refl, tt))))))), tt),
        ),
      )
      (refl, (refl, (refl, (refl, (refl, tt)))))

dialogs_create_nothing_example :
    ((handle_create_incident_dialog dialog broken).1.db ≡ broken.db)
    × ((handle_create_incident_dialog dialog broken).0 ≢ ok closed)
    × ((handle_create_incident_submit submission broken).1.db ≡ broken.db)
dialogs_create_nothing_example = dialogs_create_nothing dialog submission broken

buttons-Stands_example :
    Preserves (Stands resolved_alert) (handle_actions ext pressed)
    × Preserves (Stands resolved_alert) (handle_block_actions ext true callback)
buttons-Stands_example = buttons-Stands resolved_alert refl ext true pressed callback

ack_commands_acknowledge_example :
    (row_of_alert 3 (handle_ack_cmd ext "ada" ("3" ∷ []) (healthy with_resolved)).1.db
      ≡ some (acknowledged_now 1000 resolved_alert))
    × (row_of_alert 3 (handle_ack_command ext "ada" ("3" ∷ []) (healthy with_resolved)).1.db
        ≡ some (acknowledged_now 1000 resolved_alert))
ack_commands_acknowledge_example =
    ack_commands_acknowledge ext "ada" "3" [] 3 with_resolved resolved_alert refl refl
