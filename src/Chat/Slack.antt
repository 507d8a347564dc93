-- ===== src/Chat/Slack.antt =====
-- The slash commands of Slack (pkg/slack/handler.go).
use nightowl.Base.{ℕ, String, Bool, false, List, [], ◌∷◌, Option, none, some, select, map}
use nightowl.Base.Texts.{fields, join, ◌<>◌}
use nightowl.Sql.{Sql, SqlError, NoError, Result, ok, err, pure, ◌>>=◌, attempt}
use nightowl.Schema.{Database, Incident, Roster, Alert}
use nightowl.Alerts.Store.{acknowledge_alert, resolve_alert}
use nightowl.Chat.Queries.{Externals, acquire_tenant_conn, search_incidents, list_rosters}
use nightowl.Chat.Commands.{
  Command, search, oncall, ack, resolve, roster, unknown, command_of, Reply, ephemeral, in_channel,
  is_listed, lines_or, rosters_reply,
}
use nightowl.Chat.Blocks.{Block, SearchResult, OnCallEntry, search_result_blocks, on_call_blocks}

-- respondJSON, or respondBlocks with an ephemeral response.
pub data SlackReply : Type 0 where
  text_reply : Reply → SlackReply
  blocks_reply : List Block → SlackReply

abbrev pub SlackCall : Type 0
SlackCall = Sql Database NoError SlackReply

abbrev pub slack_when_open : SlackCall → Result SqlError (Unit {0}) → SlackCall
slack_when_open k (ok _) = k
slack_when_open k (err e) = pure (text_reply (ephemeral "Internal error."))

unfoldable pub slack_with_conn : SlackCall → SlackCall
slack_with_conn k = attempt acquire_tenant_conn >>= slack_when_open k

abbrev pub solution_or_empty : Option String → String
solution_or_empty none = ""
solution_or_empty (some s) = s

unfoldable pub search_result : Incident → SearchResult
search_result row = record {
  title = row.title;
  severity = row.severity;
  solution = solution_or_empty row.solution;
}

unfoldable pub slack_search_reply : String → Result SqlError (List Incident) → SlackReply
slack_search_reply text (err e) = text_reply (ephemeral "Search failed.")
slack_search_reply text (ok rows) =
    blocks_reply (search_result_blocks text (map search_result rows))

unfoldable pub on_call_entry : Roster → OnCallEntry
on_call_entry r = record {
  roster_name = r.name;
  user_display = "calculating...";
  timezone = r.timezone;
  is_override = false;
}

unfoldable pub slack_on_call_reply : (Roster → Bool) → Result SqlError (List Roster) → SlackReply
slack_on_call_reply listed (err e) = text_reply (ephemeral "Failed to list rosters.")
slack_on_call_reply listed (ok rosters) =
    blocks_reply (on_call_blocks (map on_call_entry (select listed rosters)))

module _ (ext : Externals) where
  unfoldable pub handle_search_command : List String → SlackCall
  handle_search_command [] = pure (text_reply (ephemeral "Usage: /nightowl search <query>"))
  handle_search_command (w ∷ ws) = slack_with_conn (do
    rows ← attempt (search_incidents ext (join (w ∷ ws)) 3)
    pure (slack_search_reply (join (w ∷ ws)) rows))

  unfoldable pub handle_on_call_command : List String → SlackCall
  handle_on_call_command args = slack_with_conn (do
    rosters ← attempt (list_rosters ext)
    pure (slack_on_call_reply (is_listed ext.to_lower args) rosters))

  unfoldable pub slack_ack_reply : ℕ → String → Result SqlError Alert → Reply
  slack_ack_reply id user (ok row) =
      in_channel ("✅ Alert `" <> ext.id_text id <> "` acknowledged by <@" <> user <> ">.")
  slack_ack_reply id user (err e) = ephemeral "Failed to acknowledge alert."

  abbrev pub ack_command_parsed : String → Option ℕ → SlackCall
  ack_command_parsed user none = pure (text_reply (ephemeral "Invalid alert ID."))
  ack_command_parsed user (some id) =
      slack_with_conn
        (do r ← attempt (acknowledge_alert id none); pure (text_reply (slack_ack_reply id user r)))

  unfoldable pub handle_ack_command : String → List String → SlackCall
  handle_ack_command user [] = pure (text_reply (ephemeral "Usage: /nightowl ack <alert-id>"))
  handle_ack_command user (w ∷ ws) = ack_command_parsed user (ext.parse_id w)

  abbrev noted : String → List String → String
  noted text [] = text
  noted text (w ∷ ws) = text <> " Notes: " <> join (w ∷ ws)

  unfoldable pub slack_resolve_reply : ℕ → String → List String → Result SqlError Alert → Reply
  slack_resolve_reply id user notes (ok row) =
      in_channel (noted ("✅ Alert `" <> ext.id_text id <> "` resolved by <@" <> user <> ">.") notes)
  slack_resolve_reply id user notes (err e) = ephemeral "Failed to resolve alert."

  abbrev pub resolve_command_parsed : String → List String → Option ℕ → SlackCall
  resolve_command_parsed user ws none = pure (text_reply (ephemeral "Invalid alert ID."))
  resolve_command_parsed user ws (some id) =
      slack_with_conn (do
        r ← attempt (resolve_alert id none)
        pure (text_reply (slack_resolve_reply id user ws r)))

  unfoldable pub handle_resolve_command : String → List String → SlackCall
  handle_resolve_command user [] =
      pure (text_reply (ephemeral "Usage: /nightowl resolve <alert-id> [notes]"))
  handle_resolve_command user (w ∷ ws) = resolve_command_parsed user ws (ext.parse_id w)

  unfoldable pub slack_roster_lines : List String → List Roster → Reply
  slack_roster_lines args rosters = lines_or "No rosters found." "*Rosters:*\n" (
      map (λ r. "• *" <> r.name <> "* — weekly rotation (" <> r.timezone <> ")")
        (select (is_listed ext.to_lower args) rosters))

  unfoldable pub handle_roster_command : List String → SlackCall
  handle_roster_command args = slack_with_conn (do
    rosters ← attempt (list_rosters ext)
    pure (text_reply (rosters_reply (slack_roster_lines args) rosters)))

  unfoldable pub run_slack_command : String → String → Command → List String → SlackCall
  run_slack_command user sub search args = handle_search_command args
  run_slack_command user sub oncall args = handle_on_call_command args
  run_slack_command user sub ack args = handle_ack_command user args
  run_slack_command user sub resolve args = handle_resolve_command user args
  run_slack_command user sub roster args = handle_roster_command args
  run_slack_command user sub unknown args = pure (
      text_reply (
        ephemeral
          ("Unknown command: " <> sub <> ". Available: search, oncall, ack, resolve, roster")))

  unfoldable pub slack_dispatch : String → List String → SlackCall
  slack_dispatch user [] =
      pure (text_reply (ephemeral "Usage: /nightowl <search|oncall|ack|resolve|roster> [args]"))
  slack_dispatch user (w ∷ args) =
      run_slack_command user (ext.to_lower w) (command_of (ext.to_lower w)) args

  -- The user's id and the text of a command that parses.
  unfoldable pub handle_slack_commands : String → String → SlackCall
  handle_slack_commands user text = slack_dispatch user (fields text)
