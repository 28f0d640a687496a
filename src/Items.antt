-- ===== src/Items.antt =====
-- The sync of one item, shannon/services/sync/items.py: its database half and its Discord half.
pub mod Recording
pub mod Arriving
pub mod Saying
pub mod Locked
pub mod Holding
pub mod Exclusive
mod Examples
