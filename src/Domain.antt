-- ===== src/Domain.antt =====
-- shannon/domain: the vocabulary that every service shares.
pub mod Json
pub mod Enums
pub mod Text
pub mod Lines
pub mod Priority
pub mod Board
pub mod Moves
pub mod Tracking
mod Examples
