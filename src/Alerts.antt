-- ===== src/Alerts.antt =====
-- Receiving, deduplicating, enriching and handling alerts (pkg/alert).
pub mod Normalize
pub mod Store
pub mod Dedup
pub mod Enrich
pub mod Webhook
pub mod Handler
pub mod Normal
pub mod Cached
pub mod Unassigned
pub mod Intake
pub mod NeverEscalated
