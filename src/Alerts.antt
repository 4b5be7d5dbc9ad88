-- ===== src/Alerts.antt =====
-- Alert triage, backend/services/alert_service.py with the transition table of
-- backend/schemas/alerts.py: acknowledge, resolve, dismiss and reopen.
pub mod Model
pub mod Triage
pub mod Ingestion
mod Examples
