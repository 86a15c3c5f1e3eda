-- ===== src/Examples.antt =====
-- The theorems of each part at concrete inputs.
pub mod Gpu
pub mod Pools
pub mod Breaker
pub mod Talk
pub mod Voices
pub mod Effects
pub mod Sound
pub mod Limits
pub mod Locks
pub mod Rules
pub mod Deliveries
pub mod Desk
pub mod Dues
pub mod Waiting
