-- ===== src/Hooks.antt =====
-- The package hooks: callbacks around a transition, kept in a registry.
pub mod Entry
pub mod Registry
pub mod Execute
pub mod Fifo
pub mod Outcome
pub mod Contract
pub mod Examples
