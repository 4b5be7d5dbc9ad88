-- ===== src/Incidents/Examples.antt =====
-- One user's incidents and alerts.
use ai_cyber_security_suite.Prelude.{ℕ, ◌+◌, ◌≡◌, refl, none, some, [], ◌∷◌, false, arith}
use ai_cyber_security_suite.Broadcaster.Envelope.{Severity, low, medium, high, critical}
use ai_cyber_security_suite.Alerts.Model.{open_, Alert, User}
use ai_cyber_security_suite.Incidents.Model.{
  opened, investigating, Incident, Store, not_found, err, by_id, get_incident,
}
use ai_cyber_security_suite.Incidents.Editing.{IncidentUpdate}
use ai_cyber_security_suite.Incidents.Linking.{attach_alerts, IncidentCreate, create_incident}
use ai_cyber_security_suite.Incidents.Linking.Attachment.{Attached, attach_alerts-Attached}
use ai_cyber_security_suite.Incidents.Threats.{Threat}
use ai_cyber_security_suite.Incidents.Threats.Uniqueness.{IsUnique}

abbrev user : User
user = record { ident = 7; is_admin = false }

abbrev alert : ℕ → Severity → Alert
alert ident severity = record {
  ident = ident;
  alert_uuid = ident + 100;
  title = 1;
  severity = severity;
  status = open_;
  rule_name = 3;
  indicator_type = 4;
  indicator_value = 5;
  fingerprint = none;
  occurrence_count = 1;
  first_seen_at = 10;
  last_seen_at = 10;
  acknowledged_at = none;
  resolved_at = none;
  dismissed_at = none;
  dismiss_reason = none;
  triage_notes = none;
  user_id = some 7;
  incident_id = none;
}

abbrev incident : Incident
incident = record {
  ident = 1;
  incident_uuid = 201;
  title = 9;
  description = none;
  severity = medium;
  status = opened;
  assigned_to_user_id = none;
  created_by_user_id = some 7;
  created_at = 10;
  updated_at = 10;
  closed_at = none;
  resolution_notes = none;
}

abbrev before : Store
before = record {
  incidents = incident ∷ [];
  alerts = alert 1 low ∷ alert 2 critical ∷ [];
  audits = [];
}

abbrev resolving : IncidentUpdate
resolving = record {
  title = some 12;
  description = none;
  assigned_to_user_id = none;
  resolution_notes = some 5;
  severity = some high;
  status = some investigating;
}

attach_alerts-Attached_example :
    Attached
      (some user)
      (by_id 1)
      (1 ∷ 2 ∷ [])
      before
      (attach_alerts 20 (some user) (by_id 1) (1 ∷ 2 ∷ []) before)
attach_alerts-Attached_example = attach_alerts-Attached 20 (some user) (by_id 1) 1 (2 ∷ []) before

-- It asks for an alert that is not there.
abbrev asked : IncidentCreate
asked = record {
  title = 9;
  description = none;
  severity = low;
  assigned_to_user_id = none;
  alert_ids = 5 ∷ [];
}

fails : (create_incident 20 (some user) 2 202 asked before).1 ≡ err not_found
unfolding create_incident attach_alerts get_incident
fails = refl

abbrev threat : Severity → ℕ → Threat
threat severity ident = record {
  user_id = some 7;
  title = 9;
  severity = severity;
  description = none;
  default_text = 4;
  initial_alert_id = some 1;
  ident = ident;
  uuid = ident + 200;
  now = 30;
}

before-IsUnique : IsUnique before.incidents
unfolding IsUnique
before-IsUnique t = ground arith
