-- ===== src/Roster.antt =====
-- pkg/roster: rosters, their members, the weekly schedule and its generation, overrides, on-call
-- resolution, coverage.
pub mod Pick
pub mod Store
pub mod Weeks
pub mod Generate
pub mod Crud
pub mod Lists
pub mod Service
pub mod Handler
pub mod Calendar
pub mod Settings
pub mod Deleted
pub mod Created
pub mod OnCall
pub mod Hours
pub mod Coverage
