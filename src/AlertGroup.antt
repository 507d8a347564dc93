-- ===== src/AlertGroup.antt =====
-- Grouping rules and groups of alerts (pkg/alertgroup).
pub mod Matching
pub mod Store
pub mod Evaluator
pub mod Severity
pub mod Keys
pub mod Rules
pub mod Handler
pub mod Chosen
pub mod Assigned
