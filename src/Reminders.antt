-- ===== src/Reminders.antt =====
-- shannon/services/reminders and shannon/db/stores/reminders.py: what `/remind` writes down and
-- how it goes off.
pub mod Store
pub mod Book
pub mod Sender
pub mod Cap
pub mod Claims
pub mod Runs
mod Examples
