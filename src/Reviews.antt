-- ===== src/Reviews.antt =====
-- Reviews of a pull request: shannon/services/reviews.py with shannon/services/locating.py.
pub mod Verdicts
pub mod Approval
pub mod Latest
pub mod Agreed
pub mod Requests
pub mod Announced
pub mod Unanimous
mod Examples
