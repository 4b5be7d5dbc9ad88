-- ===== src/Alerts/Ingestion/Examples.antt =====
-- Three events of one kind, and one of another.
use ai_cyber_security_suite.Prelude.{
  ℕ, ◌+◌, ◌≡◌, ◌≤◌, refl, none, some, List, [], ◌∷◌, length, map, arith,
}
use ai_cyber_security_suite.Broadcaster.Envelope.{high}
use ai_cyber_security_suite.Alerts.Model.{Alert, AlertStatus, open_, dismissed}
use ai_cyber_security_suite.Notifications.{Mailroom}
use ai_cyber_security_suite.Alerts.Ingestion.{
  Texts, Event, Desk, Processed, done, raised, process_event, compute_fingerprint, newest,
  is_candidate,
}
use ai_cyber_security_suite.Alerts.Ingestion.Counting.{IsKept, rows_read, process_event-IsKept}
use ai_cyber_security_suite.Alerts.Ingestion.Calls.{Call, draw_of, serve}
use ai_cyber_security_suite.Alerts.Ingestion.Totals.{total, serve-total}
use ai_cyber_security_suite.Alerts.Ingestion.Bursts.{serve-burst}

abbrev texts : Texts
texts = record {
  empty = 0;
  slash = 1;
  system = 2;
  upper = λ t. t;
  clean = λ t. t;
  user_text = λ u. u;
  normal = λ t. record { registered_domain = some t; fqdn = none; path = none };
  digest = λ ts. length ts;
  rule_of = λ t. t;
  title = λ r i. 3;
}

abbrev quiet : Mailroom
quiet = record { preferences = []; notices = []; outbox = []; events = []; audits = [] }

abbrev desk : Desk
desk = record { alerts = []; mail = quiet; events = []; published = []; contained = [] }

abbrev seen : ℕ → Event
seen value = record {
  event_type = 4;
  severity = high;
  indicator_type = 5;
  indicator_value = value;
  user_id = some 7;
}

abbrev call : ℕ → ℕ → Call
call n value = record {
  now = n;
  ident = n;
  alert_uuid = 100 + n;
  notice = record { now = n; notice_uuid = n; outbox_uuid = n };
  event = seen value;
  rule = some (value + 10);
  incident = none;
}

abbrev calls : List Call
calls = call 1 8 ∷ call 2 8 ∷ call 3 9 ∷ call 4 8 ∷ []

-- An alert of user 7 that the next event is grouped into, one of the same kind of user 8, and a
-- dismissed one of user 7.
abbrev row : ℕ → ℕ → AlertStatus → Alert
row n user st = record {
  ident = n;
  alert_uuid = 100 + n;
  title = 3;
  severity = high;
  status = st;
  rule_name = 18;
  indicator_type = 5;
  indicator_value = 8;
  fingerprint = none;
  occurrence_count = 4;
  first_seen_at = 1;
  last_seen_at = 20;
  acknowledged_at = none;
  resolved_at = none;
  dismissed_at = none;
  dismiss_reason = none;
  triage_notes = none;
  user_id = some user;
  incident_id = none;
}

abbrev busy : Desk
busy = record desk { alerts = row 1 7 open_ ∷ row 2 8 open_ ∷ row 3 7 dismissed ∷ [] }

counts : Processed → List ℕ
counts (done s a new) = map (λ y. y.occurrence_count) s.alerts
counts (raised s) = []

-- The event is counted in the first row, and adds none.
groups_first :
    counts (process_event texts (draw_of (call 30 8)) (seen 8) (some 18) none busy) ≡ 5 ∷ 4 ∷ 4 ∷ []
unfolding process_event compute_fingerprint counts
groups_first = refl

serve-total_example : total (serve texts calls desk).alerts ≡ total desk.alerts + length calls
serve-total_example =
    serve-total texts calls desk 0 (omega arith, (omega arith, (omega arith, (omega arith, tt)))) tt
      tt

-- The two events of one kind are grouped, and the third is another alert.
two_alerts : length (serve texts calls desk).alerts ≡ 2
unfolding process_event compute_fingerprint
two_alerts = ground arith

serve-burst_example :
    length (serve texts (call 1 8 ∷ call 2 8 ∷ []) desk).alerts ≤ length desk.alerts + 1
serve-burst_example =
    serve-burst texts (call 1 8) (call 2 8 ∷ []) desk (refl, refl, omega arith, tt)

process_event-IsKept_example :
    IsKept
      (some 7)
      (rows_read
        (draw_of (call 30 8))
        busy
        (newest (is_candidate texts 30 (seen 8) (some 18)) busy.alerts))
      (process_event texts (draw_of (call 30 8)) (seen 8) (some 18) none busy)
process_event-IsKept_example =
    process_event-IsKept texts (draw_of (call 30 8)) (seen 8) (some 18) none busy
      (((λ e. omega arith), ((λ e. omega arith), tt)), (((λ e. omega arith), tt), (tt, tt)))
      (((λ e. omega arith), ((λ e. omega arith), tt)), (((λ e. omega arith), tt), (tt, tt)))
