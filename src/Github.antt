-- ===== src/Github.antt =====
-- shannon/github: which labels carry a status or a priority.
pub mod Labels
pub mod Changes
pub mod Single
mod Examples
