-- ===== src/Containment.antt =====
-- Threat containment, backend/services/containment_service.py.
pub mod Model
pub mod Allowlist
pub mod Policies
pub mod Actions
pub mod Playbooks
pub mod Rollback
pub mod Boundary
mod Examples
