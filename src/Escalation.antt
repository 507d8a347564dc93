-- ===== src/Escalation.antt =====
-- pkg/escalation: the engine that escalates unacknowledged alerts through the tiers of their
-- policies, and the simulation of a policy. The numbers of a policy are those that an int32 holds
-- and that are not negative, on which its conversions change nothing.
pub mod Engine
pub mod DryRun
pub mod Schedule
pub mod Due
pub mod Repeat
pub mod Quiet
