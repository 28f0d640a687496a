-- ===== src/Identity.antt =====
-- Proving which GitHub account a Discord member holds: shannon/db/stores/identities.py and
-- shannon/services/verification.py.
pub mod OneTime
pub mod Proofs
pub mod Seals
pub mod RoundTrip
pub mod Sealed
pub mod Deeds
pub mod Vouched
pub mod Unique
pub mod Spent
pub mod Finished
pub mod Linking
mod Examples
