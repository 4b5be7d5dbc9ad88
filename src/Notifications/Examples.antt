-- ===== src/Notifications/Examples.antt =====
-- One user's preferences and an alert that is notified twice.
use ai_cyber_security_suite.Prelude.{true, false, none, some, List, [], ◌∷◌}
use ai_cyber_security_suite.Prelude.{ℕ}
use ai_cyber_security_suite.Broadcaster.Envelope.{high, critical}
use ai_cyber_security_suite.Alerts.Model.{open_, Alert}
use ai_cyber_security_suite.Notifications.{Preferences, Mailroom, Drawn, default_preferences}
use ai_cyber_security_suite.Notifications.Keys.{
  IsKeyed, Production, for_alert, for_suspension, serve, serve-IsKeyed,
}
use ai_cyber_security_suite.Notifications.Settings.{url_text, PreferenceUpdate}

abbrev alert : Alert
alert = record {
  ident = 1;
  alert_uuid = 401;
  title = 1;
  severity = critical;
  status = open_;
  rule_name = 3;
  indicator_type = 4;
  indicator_value = 201;
  fingerprint = none;
  occurrence_count = 1;
  first_seen_at = 10;
  last_seen_at = 10;
  acknowledged_at = none;
  resolved_at = none;
  dismissed_at = none;
  dismiss_reason = none;
  triage_notes = none;
  user_id = some 7;
  incident_id = none;
}

abbrev reachable : Preferences
reachable = record (default_preferences 7) { webhook_enabled = true; webhook_url = some 5 }

abbrev mailroom : Mailroom
mailroom = record {
  preferences = reachable ∷ [];
  notices = [];
  outbox = [];
  events = [];
  audits = [];
}

abbrev drawn : ℕ → Drawn
drawn n = record { now = n; notice_uuid = n; outbox_uuid = n }

abbrev productions : List Production
productions =
    for_alert (drawn 1) alert false
    ∷ for_alert (drawn 2) alert false
    ∷ for_suspension (drawn 3)
        (record { user_id = 7; target_uuid = 8; subtype = 9; is_ssrf = true })
    ∷ []

serve-IsKeyed_example : IsKeyed (serve productions mailroom).outbox
serve-IsKeyed_example = serve-IsKeyed productions mailroom tt

abbrev enabling : PreferenceUpdate
enabling = record {
  in_app_enabled = none;
  email_enabled = none;
  min_severity = some high;
  clear_webhook_secret = false;
  rotate_secret = true;
  generated_secret = 12;
  webhook_secret = none;
  webhook_url = some (url_text 6);
  webhook_enabled = some true;
}
