-- ===== src/Subscribe.antt =====
-- fsm.go: Subscribe.
pub mod Setup
pub mod Observed
pub mod System
pub mod Advances
pub mod Alone
pub mod Served
pub mod Kept
pub mod Turns
pub mod Stages
pub mod Gapless
pub mod Stalled
pub mod Behind
pub mod Progress
pub mod Capacity
pub mod Examples
pub mod SetupExamples
