-- ===== src/Alerts/Ingestion/Calls.antt =====
-- Sequences of process_event whose inserts do not fail.
use ai_cyber_security_suite.Prelude.{ℕ, Option, none, List, [], ◌∷◌}
use ai_cyber_security_suite.Notifications.{Drawn}
use ai_cyber_security_suite.Alerts.Ingestion.{
  Texts, Event, Desk, Draw, Processed, done, raised, process_event,
}

-- A call whose insert does not fail.
pub record Call : Type 0 where
  pub now : ℕ
  pub ident : ℕ
  pub alert_uuid : ℕ
  pub notice : Drawn
  pub event : Event
  pub rule : Option ℕ
  pub incident : Option ℕ

abbrev pub draw_of : Call → Draw
draw_of c = record {
  now = c.now;
  ident = c.ident;
  alert_uuid = c.alert_uuid;
  notice = c.notice;
  race = none;
}

abbrev pub desk_of : Processed → Desk
desk_of (done t a new) = t
desk_of (raised t) = t

abbrev pub step : Texts → Call → Desk → Desk
step x c s = desk_of (process_event x (draw_of c) c.event c.rule c.incident s)

abbrev pub serve : Texts → List Call → Desk → Desk
serve x [] s = s
serve x (c ∷ cs) s = serve x cs (step x c s)
