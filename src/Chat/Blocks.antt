-- ===== src/Chat/Blocks.antt =====
-- The layout of Slack messages (pkg/slack/messages.go). `severity` and `truncate` are those of
-- pkg/messaging/renderer.go.
use nightowl.Base.{
  ℕ, suc, ◌-◌, String, str_eq, Bool, true, false, ◌&&◌, List, [], ◌∷◌, ◌++◌, map, leb, ltb,
  if◌then◌else◌, length,
}
use nightowl.Base.Texts.{◌<>◌}
use nightowl.Chat.Attachments.{severity_emoji, severity_label, truncate}

pub record Button : Type 0 where
  pub action_id : String
  pub value : String
  pub label : String
  pub is_danger : Bool
  pub url : String

pub data Block : Type 0 where
  header section : String → Block
  field_section : List String → Block
  divider : Block
  action_row : String → List Button → Block

-- AlertInfo
pub record AlertInfo : Type 0 where
  pub alert_id : String
  pub title : String
  pub severity : String
  pub description : String
  pub cluster : String
  pub namespace : String
  pub service : String
  pub on_call_user : String
  pub suggested_solution : String
  pub runbook_url : String

-- SearchResult, less the id, which is not laid out.
pub record SearchResult : Type 0 where
  pub title : String
  pub severity : String
  pub solution : String

pub record OnCallEntry : Type 0 where
  pub roster_name : String
  pub user_display : String
  pub timezone : String
  pub is_override : Bool

abbrev pub plain_button : String → String → String → Button
plain_button action_id value label = record {
  action_id = action_id;
  value = value;
  label = label;
  is_danger = false;
  url = "";
}

unfoldable pub text_if : String → String → List String
text_if label value = if str_eq value "" then [] else (label <> value) ∷ []

unfoldable pub info_fields : AlertInfo → List String
info_fields a =
    text_if "*Cluster:* " a.cluster
    ++ text_if "*Namespace:* " a.namespace
    ++ text_if "*Service:* " a.service
    ++ text_if "*On-Call:* " a.on_call_user

abbrev pub fields_block : List String → List Block
fields_block [] = []
fields_block (f ∷ fs) = field_section (f ∷ fs) ∷ []

unfoldable pub alert_buttons : AlertInfo → List Button
alert_buttons a =
    plain_button "ack_alert" a.alert_id "✅ Acknowledge"
      ∷ (if str_eq a.runbook_url ""
          then []
          else record (plain_button "view_runbook" a.alert_id "📋 View Runbook") {
            url = a.runbook_url;
          }
            ∷ [])
    ++ record (plain_button "escalate_alert" a.alert_id "🔼 Escalate") { is_danger = true } ∷ []

unfoldable pub alert_notification_blocks : AlertInfo → List Block
alert_notification_blocks a =
    header (severity_emoji a.severity <> " " <> severity_label a.severity <> ": " <> a.title)
      ∷ fields_block (info_fields a)
    ++ (if str_eq a.description "" then [] else section (truncate a.description 500) ∷ [])
    ++ (if str_eq a.suggested_solution ""
        then []
        else section ("💡 *Known Solution:* " <> truncate a.suggested_solution 500) ∷ [])
    ++ action_row "alert_actions" (alert_buttons a) ∷ []

unfoldable pub alert_acknowledged_blocks : String → String → List Block
alert_acknowledged_blocks title by =
    section ("✅ Alert *" <> title <> "* acknowledged by " <> by <> ".") ∷ []

unfoldable pub alert_resolved_blocks : String → String → Bool → List Block
alert_resolved_blocks title by has_kb_entry =
    let text = "✅ Alert *" <> title <> "* resolved by " <> by <> "." in
    if has_kb_entry
    then section text ∷ []
    else section (text <> "\n\nThis looks like a *new issue* not in the knowledge base.")
      ∷ action_row "resolve_actions" (
          plain_button "create_incident_modal" "" "📝 Add to Knowledge Base"
          ∷ plain_button "skip_kb_entry" "" "Skip"
          ∷ [])
      ∷ []

-- The loop of SearchResultBlocks from the index `i` on, over `count` results.
unfoldable pub result_blocks : ℕ → ℕ → List SearchResult → List Block
result_blocks count i [] = []
result_blocks count i (r ∷ rs) =
    let rest = result_blocks count (suc i) rs in
    if leb 3 i
    then []
    else section
          ("*" <> severity_emoji r.severity <> " " <> r.title <> "*\n" <> truncate r.solution 200)
        ∷ (if ltb i (count - 1) && ltb i 2 then divider ∷ [] else [])
      ++ rest

unfoldable pub search_result_blocks : String → List SearchResult → List Block
search_result_blocks query [] = section ("No results found for *" <> query <> "*.") ∷ []
search_result_blocks query (r ∷ rs) =
    header ("Search results for \"" <> truncate query 50 <> "\"")
    ∷ result_blocks (length (r ∷ rs)) 0 (r ∷ rs)

unfoldable pub on_call_text : OnCallEntry → String
on_call_text e =
    "*"
    <> e.roster_name
    <> ":* "
    <> e.user_display
    <> (if str_eq e.timezone "" then "" else " (" <> e.timezone <> ")")
    <> (if e.is_override then " _(override)_" else "")

unfoldable pub on_call_blocks : List OnCallEntry → List Block
on_call_blocks [] = section "No on-call rosters found." ∷ []
on_call_blocks (e ∷ es) = header "Current On-Call" ∷ map (λ x. section (on_call_text x)) (e ∷ es)
