-- ===== src/Links.antt =====
-- Who is whom: shannon/db/stores/user_links.py.
pub mod Store
pub mod Pairs
pub mod Resolved
pub mod Reach
pub mod Rings
mod Examples
