-- ===== src/Tests.antt =====
-- Runs of the theorems on small data.
pub mod Data
pub mod Rosters
pub mod Requests
pub mod Policies
pub mod Groups
pub mod Incidents
pub mod Webhooks
pub mod Audits
pub mod Chats
