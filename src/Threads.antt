-- ===== src/Threads.antt =====
-- Which Discord thread an item points at: shannon/db/stores/thread_pointers.py and
-- shannon/services/sync/threads.py.
pub mod Pointers
pub mod Binding
pub mod Attached
pub mod Written
pub mod Shown
mod Examples
