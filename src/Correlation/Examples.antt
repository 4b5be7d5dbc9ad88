-- ===== src/Correlation/Examples.antt =====
-- An event and an alert of one user on one page.
use ai_cyber_security_suite.Prelude.{
  ◌≡◌, ◌≤◌, refl, true, false, none, some, [], ◌∷◌, leb, length, All,
}
use ai_cyber_security_suite.Broadcaster.Envelope.{medium}
use ai_cyber_security_suite.Alerts.Model.{Alert, open_}
use ai_cyber_security_suite.Correlation.{
  Norm, Indicators, compute_correlation_score, Event, correlate_event,
}
use ai_cyber_security_suite.Correlation.Matches.{IsMatch, correlate_event-IsMatch}

abbrev page : Norm
page = record { registered_domain = some 3; path = 4; is_ip = false; is_shared_infra = false }

abbrev indicators : Indicators
indicators = record { normal = λ t. page; slash = 0; is_intel_rule = λ r. false }

abbrev alert : Alert
alert = record {
  ident = 1;
  alert_uuid = 101;
  title = 1;
  severity = medium;
  status = open_;
  rule_name = 3;
  indicator_type = 4;
  indicator_value = 5;
  fingerprint = none;
  occurrence_count = 1;
  first_seen_at = 10;
  last_seen_at = 10;
  acknowledged_at = none;
  resolved_at = none;
  dismissed_at = none;
  dismiss_reason = none;
  triage_notes = none;
  user_id = some 7;
  incident_id = none;
}

abbrev event : Event
event = record { indicator_value = 6; user_id = some 7; has_intel = false }

correlate_event-IsMatch_example :
    All
      (IsMatch indicators 20 event)
      (correlate_event indicators false 20 event (alert ∷ [])).matching
    × ((correlate_event indicators false 20 event (alert ∷ [])).is_correlated
        ≡ leb 1 (length (correlate_event indicators false 20 event (alert ∷ [])).matching))
    × ((correlate_event indicators false 20 event (alert ∷ [])).evaluated ≤ 100)
correlate_event-IsMatch_example = correlate_event-IsMatch indicators false 20 event (alert ∷ [])

is_match : (correlate_event indicators false 20 event (alert ∷ [])).is_correlated ≡ true
unfolding correlate_event compute_correlation_score
is_match = refl
