-- ===== src/Scheduler.antt =====
-- The distributed scheduler, backend/services/scheduler_service.py: leader election with a fencing
-- epoch, claims of monitoring targets under execution leases, and the fenced write-back.
pub mod State
pub mod Election
pub mod Claims
pub mod WriteBack
pub mod Service
pub mod Examples
mod Scenarios
