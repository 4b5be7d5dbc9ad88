-- ===== src/Broadcaster/Envelope.antt =====
-- SSEEventEnvelope (backend/schemas/stream.py) with what the broadcaster reads of it. Of the payload
-- these are the severity and whether the status is SUSPENDED, both after `.upper()`; the rest of it,
-- the timestamp and the ids are one opaque number.
use ai_cyber_security_suite.Prelude.{ℕ, Bool, true, false, Option, get_or}

-- The keys of SEVERITY_RANKS, and any other text.
pub data Severity : Type 0 where
  info low medium high critical unlisted : Severity

abbrev pub rank : Severity → ℕ
rank info = 1
rank low = 2
rank medium = 3
rank high = 4
rank critical = 5
rank unlisted = 1

pub data EventType : Type 0 where
  alert_created target_status_changed : EventType
  other_event : ℕ → EventType

pub data Channel : Type 0 where
  soc alerts notifications monitor : Channel

pub record Envelope : Type 0 where
  pub cursor_id : ℕ
  pub event_type : EventType
  pub tenant_id : ℕ
  pub channel : Channel
  pub severity : Option Severity
  pub suspended : Bool
  pub content : ℕ

abbrev pub is_high : Severity → Bool
is_high high = true
is_high critical = true
is_high _ = false

abbrev pub critical_of_type : EventType → Envelope → Bool
critical_of_type alert_created e = is_high (get_or e.severity low)
critical_of_type target_status_changed e = e.suspended
critical_of_type (other_event n) e = false

unfoldable pub is_critical_event : Envelope → Bool
is_critical_event e = critical_of_type e.event_type e
