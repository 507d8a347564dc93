-- ===== src/Audit.antt =====
-- The asynchronous writer of audit entries (internal/audit/audit.go): a bounded channel, a
-- background goroutine that collects batches, and the flush of a batch to the tenants' tables.
pub mod Flush
pub mod Writer
pub mod Request
pub mod Bounds
pub mod Steps
pub mod InOrder
pub mod Shutdown
pub mod Closing
pub mod Abandoned
pub mod Groups
pub mod Delivered
