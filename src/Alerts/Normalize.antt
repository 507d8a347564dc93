-- ===== src/Alerts/Normalize.antt =====
-- Webhook payloads and what they are normalized to (pkg/alert/alert.go, webhook.go).
use Prim.Native.String.{◌++◌ as ◌<>◌, slice}
use nightowl.Base.{
  ℕ, String, str_eq, Bool, false, ◌||◌, List, [], ◌∷◌, Option, none, some, if◌then◌else◌,
}
use nightowl.Schema.{LabelMap, RawJson, no_bytes, null, object, other, Incident}
use nightowl.AlertGroup.Matching.{label_of}

-- A tenant's BookOwl: its runbook search, with the ids and links of what it finds, and the text of a
-- runbook; nothing stands for a failed request.
pub record BookOwl : Type 0 where
  pub list_runbooks : String → Option (List (String × String))
  pub get_runbook : String → Option String

-- What the code relies on from outside: the standard library's strings.ToLower, SHA-256 as
-- hexadecimal digits, regexp.Compile, the texts of JSON values and of UUIDs, the database's order of
-- texts and its rank of an incident for a search, with the least rank that counts.
pub record Externals : Type 0 where
  pub to_lower : String → String
  pub sha256_hex : String → String
  pub compile : String → Option (String → Bool)
  pub json_text : RawJson → String
  pub keep_annotations : List String → String → String
  pub uuid_text : ℕ → String
  pub name_le : String → String → Bool
  pub rank : String → Incident → Option ℕ
  pub min_rank : ℕ
  pub bookowl : Option BookOwl

pub record NormalizedAlert : Type 0 where
  pub fingerprint : String
  pub status : String
  pub severity : String
  pub source : String
  pub title : String
  pub description : Option String
  pub labels : RawJson
  pub annotations : RawJson
  pub resolved_by_agent : Bool
  pub agent_resolution_notes : String

-- A map is `none` where it is nil.
pub record AlertmanagerAlert : Type 0 where
  pub status : String
  pub labels : Option LabelMap
  pub annotations : Option LabelMap
  pub fingerprint : String

pub record KeepPayload : Type 0 where
  pub id : String
  pub name : String
  pub status : String
  pub severity : String
  pub source : List String
  pub fingerprint : String
  pub labels : Option LabelMap
  pub description : String

-- `confidence` is the number as the notes print it.
pub record AgentMetadata : Type 0 where
  pub agent_id : String
  pub action_taken : String
  pub action_result : String
  pub auto_resolved : Bool
  pub confidence : String

pub record GenericPayload : Type 0 where
  pub title : String
  pub severity : String
  pub fingerprint : String
  pub description : String
  pub labels : Option LabelMap
  pub source : String
  pub agent_metadata : Option AgentMetadata

abbrev is_one_of : String → List String → Bool
is_one_of s [] = false
is_one_of s (t ∷ ts) = str_eq s t || is_one_of s ts

abbrev pub severity_of : String → String
severity_of s =
    if is_one_of s ("critical" ∷ "crit" ∷ "fatal" ∷ "emergency" ∷ "p1" ∷ [])
    then "critical"
    else if is_one_of s ("major" ∷ "error" ∷ "high" ∷ "p2" ∷ [])
    then "major"
    else if is_one_of s ("warning" ∷ "warn" ∷ "medium" ∷ "p3" ∷ [])
    then "warning"
    else if is_one_of s ("info" ∷ "informational" ∷ "low" ∷ "p4" ∷ "p5" ∷ [])
    then "info"
    else "warning"

abbrev pub status_of : String → String
status_of s = if is_one_of s ("resolved" ∷ "ok" ∷ "inactive" ∷ []) then "resolved" else "firing"

-- json.Marshal of a map of texts.
abbrev pub marshal_labels : Option LabelMap → RawJson
marshal_labels none = null
marshal_labels (some labels) = object labels

abbrev pub ensure_json : RawJson → RawJson
ensure_json no_bytes = object []
ensure_json null = object []
ensure_json (object labels) = object labels
ensure_json (other text) = other text

-- A key of a map that may be nil.
abbrev pub text_at : String → Option LabelMap → String
text_at key none = ""
text_at key (some labels) = label_of key labels

abbrev pub unless_empty : String → Option String → Option String
unless_empty s default = if str_eq s "" then default else some s

abbrev pub or_default : String → String → String
or_default s default = if str_eq s "" then default else s

module _ (env : Externals) where
  unfoldable pub normalize_severity : String → String
  normalize_severity s = severity_of (env.to_lower s)

  unfoldable pub normalize_status : String → String
  normalize_status s = status_of (env.to_lower s)

  -- The first 16 bytes of the hash are 32 hexadecimal digits.
  unfoldable pub generate_fingerprint : String → RawJson → String
  generate_fingerprint title labels =
      slice (env.sha256_hex (title <> (":" <> env.json_text labels))) 0 32

  unfoldable pub normalize_alertmanager : AlertmanagerAlert → NormalizedAlert
  unfolding normalize_severity normalize_status generate_fingerprint
  normalize_alertmanager a =
      let title = or_default (text_at "alertname" a.labels) "Unnamed Alertmanager Alert" in
      let labels = marshal_labels a.labels in
      record {
        fingerprint = or_default a.fingerprint (generate_fingerprint title labels);
        status = normalize_status a.status;
        severity = normalize_severity (text_at "severity" a.labels);
        source = "alertmanager";
        title = title;
        description =
            unless_empty (text_at "summary" a.annotations)
              (unless_empty (text_at "description" a.annotations) none);
        labels = labels;
        annotations = marshal_labels a.annotations;
        resolved_by_agent = false;
        agent_resolution_notes = "";
      }

  unfoldable pub normalize_keep : KeepPayload → NormalizedAlert
  unfolding normalize_severity normalize_status generate_fingerprint
  normalize_keep p =
      let labels = marshal_labels p.labels in
      record {
        fingerprint = or_default p.fingerprint (generate_fingerprint p.name labels);
        status = normalize_status p.status;
        severity = normalize_severity p.severity;
        source = "keep";
        title = p.name;
        description = unless_empty p.description none;
        labels = labels;
        annotations = other (env.keep_annotations p.source p.id);
        resolved_by_agent = false;
        agent_resolution_notes = "";
      }

  abbrev pub agent_notes : AgentMetadata → String
  agent_notes m =
      "Agent "
      <> (m.agent_id
          <> (": "
              <> (m.action_taken
                  <> (" (result: "
                      <> (m.action_result <> (", confidence: " <> (m.confidence <> ")")))))))

  abbrev pub is_auto_resolved : Option AgentMetadata → Bool
  is_auto_resolved none = false
  is_auto_resolved (some m) = m.auto_resolved

  abbrev pub notes_of : Option AgentMetadata → String
  notes_of none = ""
  notes_of (some m) = if m.auto_resolved then agent_notes m else ""

  unfoldable pub normalize_generic : GenericPayload → NormalizedAlert
  unfolding normalize_severity generate_fingerprint
  normalize_generic p =
      let labels = marshal_labels p.labels in
      let auto_resolved = is_auto_resolved p.agent_metadata in
      record {
        fingerprint = or_default p.fingerprint (generate_fingerprint p.title labels);
        status = if auto_resolved then "resolved" else "firing";
        severity = normalize_severity p.severity;
        source = or_default p.source "generic";
        title = p.title;
        description = unless_empty p.description none;
        labels = labels;
        annotations = object [];
        resolved_by_agent = auto_resolved;
        agent_resolution_notes = notes_of p.agent_metadata;
      }
