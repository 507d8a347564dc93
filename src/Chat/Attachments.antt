-- ===== src/Chat/Attachments.antt =====
-- The layout of Mattermost messages (pkg/mattermost/formatter.go), with the severities of
-- pkg/messaging/renderer.go. Texts are cut by bytes; a character that the cut divides is left out,
-- where the code sends its first bytes.
use Prim.Native.String.{len, slice}
use nightowl.Base.{
  ℕ, ◌-◌, String, str_eq, Bool, true, List, [], ◌∷◌, ◌++◌, Option, none, some, leb, ltb,
  if◌then◌else◌,
}
use nightowl.Base.Texts.{◌<>◌, decimal}

unfoldable pub severity_emoji : String → String
severity_emoji severity =
    if str_eq severity "critical"
    then "🔴"
    else if str_eq severity "major"
    then "🟠"
    else if str_eq severity "warning"
    then "🟡"
    else if str_eq severity "info"
    then "🔵"
    else "⚪"

unfoldable pub severity_label : String → String
severity_label s =
    if str_eq s "critical"
    then "CRITICAL"
    else if str_eq s "major"
    then "MAJOR"
    else if str_eq s "warning"
    then "WARNING"
    else if str_eq s "info"
    then "INFO"
    else s

unfoldable pub severity_color : String → String
severity_color severity =
    if str_eq severity "critical"
    then "#DC2626"
    else if str_eq severity "major"
    then "#EA580C"
    else if str_eq severity "warning"
    then "#CA8A04"
    else if str_eq severity "info"
    then "#2563EB"
    else "#6B7280"

unfoldable pub truncate : String → ℕ → String
truncate s max = if leb (len s) max then s else slice s 0 (max - 3) <> "..."

pub record AttachmentField : Type 0 where
  pub short : Bool
  pub title : String
  pub value : String

-- `context` has the values of the keys "action" and "alert_id".
pub record Action : Type 0 where
  pub id : String
  pub name : String
  pub kind : String
  pub style : String
  pub url : String
  pub context : Option (String × String)

pub record Attachment : Type 0 where
  pub fallback : String
  pub color : String
  pub title : String
  pub text : String
  pub fields : List AttachmentField
  pub actions : List Action

-- messaging.AlertMessage, the fields that are laid out.
pub record AlertMessage : Type 0 where
  pub alert_id : String
  pub title : String
  pub severity : String
  pub description : String
  pub cluster : String
  pub namespace : String
  pub service : String
  pub primary_on_call : String
  pub primary_user_ref : String
  pub solution : String
  pub runbook_url : String

-- A field with an empty value is left out.
unfoldable pub field_if : String → String → String → List AttachmentField
field_if title given value =
    if str_eq given "" then [] else record { short = true; title = title; value = value } ∷ []

unfoldable pub alert_fields : AlertMessage → List AttachmentField
alert_fields msg =
    field_if "Cluster" msg.cluster msg.cluster
    ++ field_if "Namespace" msg.namespace msg.namespace
    ++ field_if "Service" msg.service msg.service
    ++ field_if "On-Call" msg.primary_on_call (
        if str_eq msg.primary_user_ref "" then msg.primary_on_call else "@" <> msg.primary_user_ref)

unfoldable pub alert_text : AlertMessage → String
alert_text msg =
    (if str_eq msg.description "" then "" else truncate msg.description 500 <> "\n\n")
    <> (if str_eq msg.solution ""
        then ""
        else "**Known Solution:** " <> truncate msg.solution 500 <> "\n\n")

unfoldable pub alert_actions : AlertMessage → String → List Action
alert_actions msg actions_url =
    record {
      id = "ack_alert";
      name = "Acknowledge";
      kind = "";
      style = "";
      url = actions_url;
      context = some ("ack", msg.alert_id);
    }
      ∷ (if str_eq msg.runbook_url ""
          then []
          else record {
            id = "view_runbook";
            name = "View Runbook";
            kind = "button";
            style = "";
            url = msg.runbook_url;
            context = none;
          }
            ∷ [])
    ++ record {
      id = "escalate_alert";
      name = "Escalate";
      kind = "";
      style = "danger";
      url = actions_url;
      context = some ("escalate", msg.alert_id);
    }
      ∷ []

unfoldable pub alert_attachments : AlertMessage → String → List Attachment
alert_attachments msg actions_url =
    let title =
      severity_emoji msg.severity <> " " <> severity_label msg.severity <> ": " <> msg.title in
    record {
      fallback = title;
      color = severity_color msg.severity;
      title = title;
      text = alert_text msg;
      fields = alert_fields msg;
      actions = alert_actions msg actions_url;
    }
    ∷ []

-- An attachment with a text alone.
abbrev pub plain_attachment : String → String → String → Attachment
plain_attachment fallback color text = record {
  fallback = fallback;
  color = color;
  title = "";
  text = text;
  fields = [];
  actions = [];
}

unfoldable pub alert_acknowledged_attachments : String → String → List Attachment
alert_acknowledged_attachments title by =
    plain_attachment "" "#22C55E" ("**Alert " <> title <> "** acknowledged by " <> by <> ".") ∷ []

unfoldable pub alert_resolved_attachments : String → String → Bool → List Attachment
alert_resolved_attachments title by has_kb_entry =
    let text = "**Alert " <> title <> "** resolved by " <> by <> "." in
    plain_attachment "" "#22C55E" (
      if has_kb_entry
      then text
      else text <> "\n\nThis looks like a **new issue** not in the knowledge base.")
    ∷ []

-- messaging.EscalationMessage and HandoffMessage, the fields that are laid out.
pub record EscalationMessage : Type 0 where
  pub tier : ℕ
  pub severity : String
  pub title : String
  pub target_name : String
  pub target_user_ref : String
  pub notify_method : String

pub record HandoffMessage : Type 0 where
  pub roster_name : String
  pub outgoing_name : String
  pub incoming_name : String
  pub week_start : String
  pub open_alerts : ℕ
  pub handoff_summary : String

unfoldable pub escalation_attachment : EscalationMessage → Attachment
escalation_attachment msg =
    plain_attachment ("Escalation Tier " <> decimal msg.tier <> ": " <> msg.title)
      (severity_color msg.severity)
      ("**Escalation — Tier "
        <> decimal msg.tier
        <> "**\n**Alert:** "
        <> severity_emoji msg.severity
        <> " "
        <> msg.title
        <> "\n**Target:** "
        <> msg.target_name
        <> "\n**Method:** "
        <> msg.notify_method
        <> (if str_eq msg.target_user_ref "" then "" else "\n@" <> msg.target_user_ref))

unfoldable pub handoff_attachment : HandoffMessage → Attachment
handoff_attachment msg = plain_attachment ("Shift handoff: " <> msg.roster_name) "#3B82F6" (
    "**Shift Handoff — "
    <> msg.roster_name
    <> "**\n**Outgoing:** "
    <> msg.outgoing_name
    <> "\n**Incoming:** "
    <> msg.incoming_name
    <> "\n**Week:** "
    <> msg.week_start
    <> (if ltb 0 msg.open_alerts then "\n**Open Alerts:** " <> decimal msg.open_alerts else "")
    <> (if str_eq msg.handoff_summary "" then "" else "\n\n" <> msg.handoff_summary))
