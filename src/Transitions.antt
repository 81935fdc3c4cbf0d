-- ===== src/Transitions.antt =====
-- transitions
pub mod Names
pub mod Config
pub mod Common
pub mod Examples
