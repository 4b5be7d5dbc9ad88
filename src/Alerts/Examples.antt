-- ===== src/Alerts/Examples.antt =====
-- Two tenants' alerts, triaged.
use ai_cyber_security_suite.Prelude.{
  ℕ, ◌≡◌, refl, false, none, some, List, [], ◌∷◌, arith, All, Distinct, row_of,
}
use ai_cyber_security_suite.Broadcaster.Envelope.{medium}
use ai_cyber_security_suite.Alerts.Model.{
  open_, dismissed, Alert, Store, Request, SocEvent, alert_dismissed, ok,
}
use ai_cyber_security_suite.Alerts.Triage.{
  lock_and_get_alert, acknowledge, resolve, dismiss, reopen, Operation, triage, dismiss_alert,
  do_dismiss, dismiss_found, audit, soc_event, commit,
}
use ai_cyber_security_suite.Alerts.Triage.Transition.{Answer, triage-Answer}
use ai_cyber_security_suite.Alerts.Triage.Rows.{assign}
use ai_cyber_security_suite.Alerts.Triage.Timestamps.{IsConsistent}
use ai_cyber_security_suite.Alerts.Triage.History.{Call, serve, IsTracked, serve-IsTracked}
use ai_cyber_security_suite.Alerts.Triage.Isolation.{triage_stays_in_scope}

abbrev alert : ℕ → ℕ → ℕ → Alert
alert ident uuid user = record {
  ident = ident;
  alert_uuid = uuid;
  title = 1;
  severity = medium;
  status = open_;
  rule_name = 3;
  indicator_type = 4;
  indicator_value = 5;
  fingerprint = none;
  occurrence_count = 1;
  first_seen_at = 10;
  last_seen_at = 10;
  acknowledged_at = none;
  resolved_at = none;
  dismissed_at = none;
  dismiss_reason = none;
  triage_notes = none;
  user_id = some user;
  incident_id = none;
}

abbrev mine : Alert
mine = alert 1 101 7

abbrev theirs : Alert
theirs = alert 2 102 8

abbrev before : Store
before = record {
  alerts = mine ∷ theirs ∷ [];
  audit_events = [];
  soc_events = [];
  notifications = [];
  published = [];
}

abbrev call_at : ℕ → Request
call_at now = record { now = now; user = record { ident = 7; is_admin = false }; cursor = now }

abbrev plain : List ℕ → List ℕ
plain text = text

abbrev spam : Operation
spam = dismiss (some (115 ∷ 112 ∷ 97 ∷ 109 ∷ [])) none (some 9) none

abbrev calls : List Call
calls =
    record { request = call_at 20; uuid = 101; operation = acknowledge none none }
    ∷ record { request = call_at 30; uuid = 102; operation = resolve none none none }
    ∷ record { request = call_at 40; uuid = 101; operation = spam }
    ∷ record { request = call_at 50; uuid = 101; operation = reopen (some 4) none none }
    ∷ []

keyed : Distinct (λ a. a.ident) before.alerts × Distinct (λ a. a.alert_uuid) before.alerts
keyed = ((((λ e. omega arith), tt), (tt, tt)), (((λ e. omega arith), tt), (tt, tt)))

fresh : All IsConsistent before.alerts
fresh = ((refl, refl, refl, refl), ((refl, refl, refl, refl), tt))

abbrev told : SocEvent
told = record {
  cursor_id = 20;
  tenant_id = 7;
  aggregate_id = 101;
  status = dismissed;
  previous_status = open_;
  severity = medium;
  at = some 20;
  dismiss_reason = some (115 ∷ 112 ∷ 97 ∷ 109 ∷ []);
  notes = some 9;
  created_at = 20;
}

-- The tables and the alert that the dismissal gives.
abbrev after : Store
after = record {
  alerts = assign plain 20 spam mine ∷ theirs ∷ [];
  audit_events =
      record {
        action = alert_dismissed;
        actor_user_id = 7;
        resource_id = 101;
        previous_status = open_;
        new_status = dismissed;
        created_at = 20;
      }
      ∷ [];
  soc_events = told ∷ [];
  notifications = [];
  published = told ∷ [];
}

dismisses : triage plain (call_at 20) 101 spam before ≡ ok after (assign plain 20 spam mine)
unfolding triage dismiss_alert do_dismiss lock_and_get_alert dismiss_found audit soc_event commit
dismisses = refl

triage-Answer_example :
    Answer plain (call_at 20) 101 spam before (triage plain (call_at 20) 101 spam before)
triage-Answer_example = triage-Answer plain (call_at 20) 101 before spam

serve-IsTracked_example : IsTracked (serve plain before calls)
serve-IsTracked_example = serve-IsTracked plain before calls (keyed, (refl, (refl, tt)))

triage_stays_in_scope_example : row_of (λ a. a.ident) 2 after.alerts ≡ some theirs
triage_stays_in_scope_example =
    triage_stays_in_scope plain (call_at 20) 101 spam before after (assign plain 20 spam mine)
      theirs keyed.0 dismisses refl refl
