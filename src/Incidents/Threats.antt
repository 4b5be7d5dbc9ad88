-- ===== src/Incidents/Threats.antt =====
-- get_or_create_threat_incident, and sequences of all operations on incidents.
pub mod Uniqueness
use ai_cyber_security_suite.Prelude.{
  ℕ, Bool, true, false, ◌||◌, ◌&&◌, Option, none, some, List, [], ◌∷◌, ◌++◌, if◌then◌else◌, ltb,
  ◌==◌, sql_eq, is_none, find, update, order_by, or_else,
}
use ai_cyber_security_suite.Broadcaster.Envelope.{Severity, rank}
use ai_cyber_security_suite.Alerts.Model.{Alert}
use ai_cyber_security_suite.Incidents.Model.{
  IncidentStatus, opened, investigating, Incident, IncidentAudit, incident_created_automated, Store,
  set_incident,
}
use ai_cyber_security_suite.Incidents.Linking.{attach}

-- What the monitoring pipeline asks for. `ident` and `uuid` are what the database draws for a new row,
-- `default_text` is the description of an incident that is given none.
pub record Threat : Type 0 where
  pub user_id : Option ℕ
  pub title : ℕ
  pub severity : Severity
  pub description : Option ℕ
  pub default_text : ℕ
  pub initial_alert_id : Option ℕ
  pub ident : ℕ
  pub uuid : ℕ
  pub now : ℕ

-- `created_by_user_id == user_id`, which is IS NULL for no user.
abbrev pub same_user : Option ℕ → Option ℕ → Bool
same_user none column = is_none column
same_user (some u) column = sql_eq column u

abbrev pub is_active : IncidentStatus → Bool
is_active opened = true
is_active investigating = true
is_active _ = false

abbrev pub concerns : Threat → Incident → Bool
concerns t i =
    same_user t.user_id i.created_by_user_id && (i.title == t.title && is_active i.status)

-- The initial alert's row is pointed at the incident.
abbrev pub bind_alert : Option ℕ → ℕ → List Alert → List Alert
bind_alert none n alerts = alerts
bind_alert (some k) n alerts = update (λ a. a.ident == k) (attach n) alerts

abbrev pub escalate : Threat → Incident → Incident
escalate t i =
    if ltb (rank i.severity) (rank t.severity)
    then record i { severity = t.severity; updated_at = t.now }
    else i

abbrev pub threat_row : Threat → Incident
threat_row t = record {
  ident = t.ident;
  incident_uuid = t.uuid;
  title = t.title;
  description = or_else t.description (some t.default_text);
  severity = t.severity;
  status = opened;
  assigned_to_user_id = none;
  created_by_user_id = t.user_id;
  created_at = t.now;
  updated_at = t.now;
  closed_at = none;
  resolution_notes = none;
}

abbrev pub threat_audit : Threat → IncidentAudit
threat_audit t = record {
  action = incident_created_automated;
  actor_user_id = t.user_id;
  resource_id = t.ident;
}

-- The tables, the incident, and whether it is new.
abbrev pub resolve_threat : Threat → Store → Option Incident → Store × Incident × Bool
resolve_threat t s (some i) = (
  record s {
    incidents = set_incident i.ident (escalate t) s.incidents;
    alerts = bind_alert t.initial_alert_id i.ident s.alerts;
  },
  escalate t i,
  false,
)
resolve_threat t s none = (
  record s {
    incidents = s.incidents ++ threat_row t ∷ [];
    alerts = bind_alert t.initial_alert_id t.ident s.alerts;
    audits = s.audits ++ threat_audit t ∷ [];
  },
  threat_row t,
  true,
)

-- The first of the query, which is ordered by the id.
unfoldable pub get_or_create_threat_incident : Threat → Store → Store × Incident × Bool
get_or_create_threat_incident t s =
    resolve_threat t s (find (concerns t) (order_by (λ i. i.ident) s.incidents))
