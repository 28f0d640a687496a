-- ===== src/People.antt =====
-- The people on an item: shannon/db/stores/assignments.py, shannon/db/stores/muted_members.py,
-- shannon/services/audience.py and the notifier of shannon/services/sync/notifications.py.
pub mod Ledger
pub mod Matching
pub mod Rename
pub mod Replace
pub mod Names
pub mod Renaming
pub mod Parking
pub mod Rounds
pub mod Ending
pub mod Keys
pub mod Replacing
pub mod Notifier
pub mod Pings
pub mod Telling
pub mod Rows
pub mod Steps
pub mod Once
pub mod Muted
pub mod Silence
pub mod Audience
pub mod Rung
mod Examples
mod Rings
