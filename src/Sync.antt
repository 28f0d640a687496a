-- ===== src/Sync.antt =====
-- shannon/services/sync: what every kind of item shares on its way into a thread.
pub mod Staleness
pub mod Policies
pub mod Settled
pub mod Notes
pub mod Once
pub mod StateLine
pub mod Together
mod Examples
