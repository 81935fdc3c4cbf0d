-- ===== src/Broadcast.antt =====
-- hooks/broadcast: the manager's subscriptions.
pub mod Subscriptions
pub mod Sound
pub mod Histories
pub mod Ending
pub mod Delivery
pub mod Happens
pub mod Once
pub mod Effects
pub mod Follows
pub mod Guarantee
pub mod Bounds
pub mod Progress
pub mod Capacity
pub mod Releases
pub mod Examples
