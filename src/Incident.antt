-- ===== src/Incident.antt =====
-- The knowledge base of incidents (pkg/incident).
pub mod Fields
pub mod Union
pub mod Store
pub mod Service
pub mod Listing
pub mod Newest
pub mod Matches
pub mod Pages
pub mod Handler
pub mod Unlogged
pub mod Audited
pub mod Final
pub mod Refuse
pub mod Live
pub mod Combined
pub mod Merge
pub mod Knows
pub mod Kept
