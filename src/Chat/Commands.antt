-- ===== src/Chat/Commands.antt =====
-- The slash commands of Mattermost (pkg/mattermost/commands.go).
use nightowl.Base.{
  ℕ, suc, String, str_eq, Bool, true, ◌||◌, List, [], ◌∷◌, Option, none, some, if◌then◌else◌,
  select, map,
}
use nightowl.Base.Texts.{fields, join, join_lines, contains, decimal, is_empty, ◌<>◌}
use nightowl.Sql.{Sql, SqlError, NoError, Result, ok, err, pure, ◌>>=◌, attempt}
use nightowl.Schema.{Database, Incident, Roster, Alert}
use nightowl.Alerts.Store.{acknowledge_alert, resolve_alert}
use nightowl.Chat.Queries.{Externals, acquire_tenant_conn, search_incidents, list_rosters}

pub data Command : Type 0 where
  search oncall ack resolve roster unknown : Command

unfoldable pub command_of : String → Command
command_of s =
    if str_eq s "search"
    then search
    else if str_eq s "oncall"
    then oncall
    else if str_eq s "ack"
    then ack
    else if str_eq s "resolve"
    then resolve
    else if str_eq s "roster"
    then roster
    else unknown

-- respondMM
pub record Reply : Type 0 where
  pub response_type : String
  pub text : String

abbrev pub ephemeral : String → Reply
ephemeral text = record { response_type = "ephemeral"; text = text }

abbrev pub in_channel : String → Reply
in_channel text = record { response_type = "in_channel"; text = text }

abbrev pub Call : Type 0
Call = Sql Database NoError Reply

-- The handlers go on only with a connection.
abbrev pub when_open : Call → Result SqlError (Unit {0}) → Call
when_open k (ok _) = k
when_open k (err e) = pure (ephemeral "Internal error.")

unfoldable pub with_conn : Call → Call
with_conn k = attempt acquire_tenant_conn >>= when_open k

unfoldable pub row_lines : ℕ → List Incident → String
row_lines i [] = ""
row_lines i (row ∷ rows) =
    "| "
    <> decimal (suc i)
    <> " | "
    <> row.title
    <> " | "
    <> row.severity
    <> " |\n"
    <> row_lines (suc i) rows

unfoldable pub search_reply : String → Result SqlError (List Incident) → Reply
search_reply text (err e) = ephemeral "Search failed."
search_reply text (ok []) = ephemeral ("No results found for **" <> text <> "**.")
search_reply text (ok (row ∷ rows)) = ephemeral (
    "### KB Search Results for \""
    <> text
    <> "\"\n| # | Title | Severity |\n|---|---|---|\n"
    <> row_lines 0 (row ∷ rows))

-- A roster is listed if no name is asked for, or if its name contains it.
unfoldable pub is_listed : (String → String) → List String → Roster → Bool
is_listed to_lower [] r = true
is_listed to_lower (w ∷ ws) r =
    let filter_name = to_lower (join (w ∷ ws)) in
    is_empty filter_name || contains (to_lower r.name) filter_name

abbrev pub lines_or : String → String → List String → Reply
lines_or nothing heading [] = ephemeral nothing
lines_or nothing heading (l ∷ ls) = ephemeral (heading <> join_lines (l ∷ ls))

unfoldable pub rosters_reply : (List Roster → Reply) → Result SqlError (List Roster) → Reply
rosters_reply show (err e) = ephemeral "Failed to list rosters."
rosters_reply show (ok rosters) = show rosters

module _ (ext : Externals) where
  unfoldable pub handle_search_cmd : List String → Call
  handle_search_cmd [] = pure (ephemeral "Usage: /nightowl search <query>")
  handle_search_cmd (w ∷ ws) = with_conn (do
    rows ← attempt (search_incidents ext (join (w ∷ ws)) 3)
    pure (search_reply (join (w ∷ ws)) rows))

  unfoldable pub on_call_lines : List String → List Roster → Reply
  on_call_lines args rosters = lines_or "No on-call rosters found." "### Current On-Call\n" (
      map (λ r. "- **" <> r.name <> "** (" <> r.timezone <> ")")
        (select (is_listed ext.to_lower args) rosters))

  unfoldable pub handle_on_call_cmd : List String → Call
  handle_on_call_cmd args =
      with_conn
        (do rosters ← attempt (list_rosters ext); pure (rosters_reply (on_call_lines args) rosters))

  unfoldable pub roster_lines : List String → List Roster → Reply
  roster_lines args rosters = lines_or "No rosters found." "**Rosters:**\n" (
      map (λ r. "- **" <> r.name <> "** — weekly rotation (" <> r.timezone <> ")")
        (select (is_listed ext.to_lower args) rosters))

  unfoldable pub handle_roster_cmd : List String → Call
  handle_roster_cmd args =
      with_conn
        (do rosters ← attempt (list_rosters ext); pure (rosters_reply (roster_lines args) rosters))

  unfoldable pub ack_reply : ℕ → String → Result SqlError Alert → Reply
  ack_reply id user (ok row) =
      in_channel ("Alert `" <> ext.id_text id <> "` acknowledged by @" <> user <> ".")
  ack_reply id user (err e) = ephemeral "Failed to acknowledge alert."

  abbrev pub ack_cmd_parsed : String → Option ℕ → Call
  ack_cmd_parsed user none = pure (ephemeral "Invalid alert ID.")
  ack_cmd_parsed user (some id) =
      with_conn (do r ← attempt (acknowledge_alert id none); pure (ack_reply id user r))

  unfoldable pub handle_ack_cmd : String → List String → Call
  handle_ack_cmd user [] = pure (ephemeral "Usage: /nightowl ack <alert-id>")
  handle_ack_cmd user (w ∷ ws) = ack_cmd_parsed user (ext.parse_id w)

  abbrev with_notes : String → List String → String
  with_notes text [] = text
  with_notes text (w ∷ ws) = text <> " Notes: " <> join (w ∷ ws)

  unfoldable pub resolve_reply : ℕ → String → List String → Result SqlError Alert → Reply
  resolve_reply id user notes (ok row) =
      in_channel
        (with_notes ("Alert `" <> ext.id_text id <> "` resolved by @" <> user <> ".") notes)
  resolve_reply id user notes (err e) = ephemeral "Failed to resolve alert."

  abbrev pub resolve_cmd_parsed : String → List String → Option ℕ → Call
  resolve_cmd_parsed user ws none = pure (ephemeral "Invalid alert ID.")
  resolve_cmd_parsed user ws (some id) =
      with_conn (do r ← attempt (resolve_alert id none); pure (resolve_reply id user ws r))

  unfoldable pub handle_resolve_cmd : String → List String → Call
  handle_resolve_cmd user [] = pure (ephemeral "Usage: /nightowl resolve <alert-id> [notes]")
  handle_resolve_cmd user (w ∷ ws) = resolve_cmd_parsed user ws (ext.parse_id w)

  unfoldable pub run_command : String → String → Command → List String → Call
  run_command user sub search args = handle_search_cmd args
  run_command user sub oncall args = handle_on_call_cmd args
  run_command user sub ack args = handle_ack_cmd user args
  run_command user sub resolve args = handle_resolve_cmd user args
  run_command user sub roster args = handle_roster_cmd args
  run_command user sub unknown args = pure (
      ephemeral ("Unknown command: " <> sub <> ". Available: search, oncall, ack, resolve, roster"))

  unfoldable pub dispatch : String → List String → Call
  dispatch user [] = pure (ephemeral "Usage: /nightowl <search|oncall|ack|resolve|roster> [args]")
  dispatch user (w ∷ args) = run_command user (ext.to_lower w) (command_of (ext.to_lower w)) args

  -- The user's name and the text of the command are the fields of the payload that are used.
  unfoldable pub handle_commands : String → String → Call
  handle_commands user text = dispatch user (fields text)
