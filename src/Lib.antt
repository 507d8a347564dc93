-- ===== src/Lib.antt =====
-- NightOwl, an incident knowledge base and on-call server: the parts of it that decide something.
--
-- The program receives alerts by webhooks (pkg/alert), drops repetitions by their fingerprint, puts
-- new alerts into groups (pkg/alertgroup) and looks for a known incident (pkg/incident) that
-- explains them. An engine polls firing alerts and escalates them along the tiers of a policy
-- (pkg/escalation). Rosters of members (pkg/roster) get a weekly schedule, with overrides, and
-- answer who is on call and when nobody is. Slash commands, buttons and dialogs of Slack
-- (pkg/slack) and Mattermost (pkg/mattermost) read and change the same tables, which belong to one
-- tenant. The audit writer (internal/audit) gets the entries of all requests through a bounded
-- channel and writes them in batches, tenant by tenant.
--
-- Base has the names and list functions that every module shares. Base/Texts has the text functions
-- of Go that the chat uses, Base/Permutes the orders of a list, Base/Sorting what sorting keeps, Base/Windows pages of a list,
-- Base/Words the integers of Go as words of 32 and 64 bits. Sql
-- has the calls over a database connection: a call is a function of the whole state, and a list of
-- Booleans says which of the coming statements and Redis commands fail. Sql/Preserves has the rules
-- for invariants that hold for every such list, Sql/Outcome what a successful call has done,
-- Sql/Meets postconditions with totality. Schema has the tables (sqlc/schema/tenant.sql), the Redis
-- keys and messages, the counters and the audit log, Http the answers that all handlers share.
--
-- Roster/Pick, Roster/Generate: pkg/roster/scheduler.go (pickPrimary, pickSecondary,
--   GenerateSchedule, alignToHandoffDay). Generate/Plan is the same without a database.
-- Roster/Store, Roster/Weeks, Roster/Crud, Roster/Lists: pkg/roster/store.go and roster.go, and
--   the calls of pkg/roster/service.go on schedules, overrides and lists. Roster/Service: changes of
--   members and pkg/roster/worker.go.
-- Roster/Handler, Handler/Duties, Roster/Calendar: pkg/roster/handler.go and ical.go.
-- Roster/OnCall, Roster/Hours, Roster/Coverage: resolveOnCall, isInActiveHours and
--   isInHandoffWindow, GetCoverage of pkg/roster/service.go.
-- Escalation/Engine: processTenant and processAlert of pkg/escalation/engine.go.
--   Escalation/DryRun: handleDryRun of pkg/escalation/handler.go.
-- Alerts/Normalize, Store, Dedup, Enrich, Webhook, Handler: alert.go, store.go, dedup.go,
--   enrich.go, webhook.go and handler.go of pkg/alert.
-- AlertGroup/Matching, Store, Evaluator, Rules, Handler: alertgroup.go, store.go, evaluator.go and
--   handler.go of pkg/alertgroup.
-- Incident/Fields, Store, Service, Listing: service.go and store.go of pkg/incident.
--   Incident/Handler: pkg/incident/handler.go.
-- Audit/Flush, Writer, Request: internal/audit/audit.go. The goroutine, its callers and the clock
--   are a machine on events, so that a list of events is one interleaving of them.
-- Chat/Queries: the statements that both chats send. Chat/Commands, Attachments, Interactions,
--   Verify: pkg/mattermost. Chat/Blocks, Slack, SlackActions: pkg/slack and
--   pkg/messaging/renderer.go.
-- The other modules hold proofs, named for what they prove, and Tests has runs on small data.
--
-- Statements generated by sqlc are modelled from the SQL of sqlc/queries. A UUID is a number, the
-- zero UUID is 0, and fresh numbers come from a counter. Instants are seconds since the midnight
-- (UTC) that begins a Sunday, dates are whole days since then. Numbers are unbounded, since the
-- counters of the tables stay far below 2 ^ 31; but the escalation engine and the dry run compute
-- with the tiers and timeouts of a policy, which nothing checks, as words that wrap around. A
-- negative number of a policy is the word that stands for it. A post to a chat is an entry of a list
-- of the database's record. Handlers hand entries to the audit writer; the record's `buffer_full`
-- says for which of the coming entries the writer's buffer is full, and these are dropped. The order
-- of incidents that were created together is a parameter of each page of the list; in the
-- other lists, rows with equal times keep the order of the table. The loop of GetCoverage runs on fuel, for which the length of the range in seconds is
-- enough, as the theorem on its gaps includes; the other loops follow lists or counted rounds.
--
-- Parameters stand for what is not in the repository: strings.ToLower, SHA-256, regular
-- expressions, the texts of JSON values and UUIDs, time zones, the collation, the text search and
-- its rank in the database, the BookOwl service, the order in which Go walks a map, the parsing and
-- formatting of times, dates, network addresses and numbers, the paging of the HTTP library, and
-- the check of a Slack signature.
--
-- Not modelled: the decoding of requests and encoding of answers, logging, durations, the timer
-- loops over all tenants, CRUD of policies and runbooks, the handoff worker, which
-- only logs, the Slack events, which are only logged, the clients and routes of the chats, users,
-- keys and tokens, tenants and their configuration, and the start of the program.
pub mod Base
pub mod Sql
pub mod Schema
pub mod Http
pub mod Roster
pub mod Escalation
pub mod Incident
pub mod AlertGroup
pub mod Alerts
pub mod Audit
pub mod Chat
pub mod Tests
