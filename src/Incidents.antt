-- ===== src/Incidents.antt =====
-- Incident management, backend/services/incident_service.py, with the transition table of
-- backend/schemas/soc.py: creation, updates, and the alerts attached to an incident.
pub mod Model
pub mod Editing
pub mod Linking
pub mod Threats
mod Examples
