-- ===== src/Delivery.antt =====
-- shannon/services/delivery and shannon/db/stores/webhook_events.py: the queue of webhook
-- deliveries and the worker that sees them through.
pub mod Store
mod Rows
pub mod Order
pub mod Invariant
mod Chosen
pub mod Leases
pub mod Worker
mod Handling
mod Batches
pub mod Calm
pub mod Settling
pub mod Bounded
pub mod Attempts
pub mod Backoff
mod Examples
