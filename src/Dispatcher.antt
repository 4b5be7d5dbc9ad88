-- ===== src/Dispatcher.antt =====
-- The webhook dispatcher, backend/services/notification_dispatcher.py: the outbox, its claims, the
-- delivery of a job, retries, and the circuit breaker of a user's webhook.
pub mod Outbox
pub mod Breaker
pub mod Delivery
pub mod History
pub mod Tick
mod Examples
