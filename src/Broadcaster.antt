-- ===== src/Broadcaster.antt =====
-- The event broadcaster, backend/services/event_broadcaster.py: the bounded queue of a client, the
-- delivery of an envelope to a pod's subscribers, and the durable replay.
pub mod Envelope
pub mod Queue
pub mod Dispatch
pub mod Replay
pub mod Tickets
pub mod Listeners
mod Examples
