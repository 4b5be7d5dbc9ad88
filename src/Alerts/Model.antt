-- ===== src/Alerts/Model.antt =====
-- Alerts, users and what a triage operation writes beside the alert. Instants are microseconds; texts
-- that are only stored are opaque numbers, and an empty text is none. Reasons are code points.
use ai_cyber_security_suite.Prelude.{ℕ, Bool, true, false, ◌||◌, ◌&&◌, Option, List, ◌==◌, sql_eq}
use ai_cyber_security_suite.Broadcaster.Envelope.{Severity}

pub data AlertStatus : Type 0 where
  open_ acknowledged resolved dismissed : AlertStatus

abbrev pub status_eq : AlertStatus → AlertStatus → Bool
status_eq open_ open_ = true
status_eq acknowledged acknowledged = true
status_eq resolved resolved = true
status_eq dismissed dismissed = true
status_eq _ _ = false

-- ALERT_STATUS_TRANSITIONS
abbrev pub allowed : AlertStatus → AlertStatus → Bool
allowed open_ acknowledged = true
allowed open_ resolved = true
allowed open_ dismissed = true
allowed acknowledged resolved = true
allowed acknowledged dismissed = true
allowed acknowledged open_ = true
allowed resolved open_ = true
allowed dismissed open_ = true
allowed _ _ = false

-- A row of `alerts`.
pub record Alert : Type 0 where
  pub ident : ℕ
  pub alert_uuid : ℕ
  pub title : ℕ
  pub severity : Severity
  pub status : AlertStatus
  pub rule_name : ℕ
  pub indicator_type : ℕ
  pub indicator_value : ℕ
  pub fingerprint : Option ℕ
  pub occurrence_count : ℕ
  pub first_seen_at : ℕ
  pub last_seen_at : ℕ
  pub acknowledged_at : Option ℕ
  pub resolved_at : Option ℕ
  pub dismissed_at : Option ℕ
  pub dismiss_reason : Option (List ℕ)
  pub triage_notes : Option ℕ
  pub user_id : Option ℕ
  pub incident_id : Option ℕ

pub record User : Type 0 where
  pub ident : ℕ
  pub is_admin : Bool

-- The `action` of an audit event.
pub data Action : Type 0 where
  alert_acknowledged alert_resolved alert_dismissed alert_reopened : Action

-- A row of `audit_events` on the resource "alerts". Of its details these are the two statuses; the
-- notes that repeat the row's, and the client's address, are left out.
pub record AuditEvent : Type 0 where
  pub action : Action
  pub actor_user_id : ℕ
  pub resource_id : ℕ
  pub previous_status : AlertStatus
  pub new_status : AlertStatus
  pub created_at : ℕ

-- A row of `soc_event_stream` of type "alert_updated"; the tenant of a system alert is 0. `at` is the
-- time that the payload tells, if it tells one.
pub record SocEvent : Type 0 where
  pub cursor_id : ℕ
  pub tenant_id : ℕ
  pub aggregate_id : ℕ
  pub status : AlertStatus
  pub previous_status : AlertStatus
  pub severity : Severity
  pub at : Option ℕ
  pub dismiss_reason : Option (List ℕ)
  pub notes : Option ℕ
  pub created_at : ℕ

-- The notification of a reopened alert.
pub record Notification : Type 0 where
  pub user_id : ℕ
  pub alert_uuid : ℕ
  pub severity : Severity
  pub created_at : ℕ

-- The committed tables, and the events handed to the broadcaster, in order.
pub record Store : Type 0 where
  pub alerts : List Alert
  pub audit_events : List AuditEvent
  pub soc_events : List SocEvent
  pub notifications : List Notification
  pub published : List SocEvent

-- What one request reads: the clock, its user, and the cursor that the flush gives its event.
pub record Request : Type 0 where
  pub now : ℕ
  pub user : User
  pub cursor : ℕ

pub data Failure : Type 0 where
  not_found : Failure
  invalid_transition : AlertStatus → AlertStatus → Failure
  reason_too_short : Failure

pub data Result : Type 0 where
  ok : Store → Alert → Result
  err : Failure → Result

-- An admin sees every alert, another user those that carry the user's id.
abbrev pub visible : User → ℕ → Alert → Bool
visible u uuid a = a.alert_uuid == uuid && (u.is_admin || sql_eq a.user_id u.ident)
