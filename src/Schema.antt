-- ===== src/Schema.antt =====
-- The state of one tenant: the rows of its schema (sqlc/schema/tenant.sql, migrations/tenant) that
-- the modelled packages read and write, the Redis keys and messages, and the counters and audit
-- entries. A UUID is a number (`uuid.Nil` is 0), a fresh one is taken from `next_id`; an instant
-- is in seconds, counted from the midnight (UTC) that begins a Sunday; a `DATE` is the number of
-- whole days since then.
pub mod Alerting
pub mod Knowledge
pub mod Duty
pub use Alerting.{
  LabelMap, RawJson, no_bytes, null, object, other, Matcher, Alert, AlertGroup, GroupingRule, Tier,
  EscalationPolicy, EscalationEvent,
}
pub use Knowledge.{Incident, HistoryEntry, Runbook}
pub use Duty.{User, Roster, Member, ScheduleRow, Override}
use nightowl.Base.{ℕ, ◌+◌, String, Bool, List, Option}

-- The Prometheus counters that are incremented.
pub data Metric : Type 0 where
  received : String → String → Metric
  kb_hit agent_resolved deduplicated : Metric
  escalated : ℕ → Metric

-- What is published on Redis channels: an escalated alert with its policy,
-- tier, title and severity, or an acknowledgment.
pub data Message : Type 0 where
  alert_escalated : ℕ → ℕ → ℕ → String → String → Message
  alert_ack : ℕ → Message

-- An entry that the audit writer has accepted, less its detail.
pub record AuditEntry : Type 0 where
  pub action : String
  pub resource : String
  pub resource_id : ℕ

-- Where a chat provider has posted an alert (`message_mappings`), less the columns that are not
-- read.
pub record MessageMapping : Type 0 where
  pub alert_id : Option ℕ
  pub provider : String
  pub channel_id : String
  pub message_id : String

-- What is sent to Slack: a reply in a thread, a message that one user sees, or the dialog for a
-- new incident with the alert's id, title, description and severity.
pub data Post : Type 0 where
  thread_reply ephemeral : String → String → String → Post
  incident_modal : String → String → String → String → Post

-- A Redis key with its value and the instant at which it expires.
pub record CacheEntry : Type 0 where
  pub key : String
  pub value : Option ℕ
  pub expires_at : ℕ

-- `audit_log` is what the audit writer has accepted; `buffer_full` says of each of the coming calls of
-- its Log whether the buffer is full then, which Audit/Writer decides, and a list that has run out
-- that it is not.
pub record Database : Type 0 where
  pub now : ℕ
  pub next_id : ℕ
  pub users : List User
  pub alerts : List Alert
  pub alert_groups : List AlertGroup
  pub grouping_rules : List GroupingRule
  pub escalation_policies : List EscalationPolicy
  pub escalation_events : List EscalationEvent
  pub incidents : List Incident
  pub incident_history : List HistoryEntry
  pub runbooks : List Runbook
  pub rosters : List Roster
  pub roster_members : List Member
  pub roster_schedule : List ScheduleRow
  pub roster_overrides : List Override
  pub cache : List CacheEntry
  pub published : List Message
  pub message_mappings : List MessageMapping
  pub posts : List Post
  pub metrics : List Metric
  pub audit_log : List AuditEntry
  pub buffer_full : List Bool
