-- ===== src/Dispatcher/Breaker.antt =====
-- The circuit breaker: _increment_circuit_breaker, and the reset of its counter on a delivery.
pub mod Trips
use ai_cyber_security_suite.Prelude.{
  ℕ, ◌+◌, Bool, true, false, not, ◌||◌, ◌&&◌, Option, none, some, List, [], ◌∷◌, ◌++◌,
  if◌then◌else◌, leb, ◌==◌, any, find, update, get_or, row_of,
}
use ai_cyber_security_suite.Dispatcher.Outbox.{
  Preference, AuditEvent, Action, Resource, webhook_circuit_broken, webhook_ssrf_aborted,
  notification_preferences, notification_outbox, Notification, Store,
}

abbrev pub breaker_limit : ℕ
breaker_limit = 5

-- The SET clause of the UPDATE; its CASEs read the row as it was.
abbrev pub counted : ℕ → Preference → Preference
counted now p =
    let tripped = leb breaker_limit (p.consecutive_failures + 1) in
    record p {
      consecutive_failures = p.consecutive_failures + 1;
      circuit_broken = if tripped then true else p.circuit_broken;
      circuit_broken_at = if tripped && not p.circuit_broken then some now else p.circuit_broken_at;
      webhook_enabled = if tripped then false else p.webhook_enabled;
    }

abbrev pub user_of : Preference → ℕ
user_of p = p.user_id

abbrev pub is_trip_action : Action → Resource → Bool
is_trip_action webhook_circuit_broken notification_preferences = true
is_trip_action _ _ = false

-- `already_recorded`: a trip of this user's breaker, audited at the time given or later.
abbrev pub recorded_since : ℕ → ℕ → AuditEvent → Bool
recorded_since user t a =
    a.actor_user_id == user && (is_trip_action a.action a.target_resource && leb t a.created_at)

trip_audit : ℕ → ℕ → Preference → AuditEvent
trip_audit user t p = record {
  action = webhook_circuit_broken;
  actor_user_id = user;
  target_resource = notification_preferences;
  resource_id = some p.ident;
  failures = some p.consecutive_failures;
  created_at = t;
}

trip_notice : ℕ → ℕ → Notification
trip_notice user t = record { user_id = user; is_read = false; created_at = t }

ssrf_audit : ℕ → ℕ → AuditEvent
ssrf_audit user now = record {
  action = webhook_ssrf_aborted;
  actor_user_id = user;
  target_resource = notification_outbox;
  resource_id = none;
  failures = none;
  created_at = now;
}

-- The warning and the audit event, where the breaker is open and this trip is not audited.
unfoldable pub announce : ℕ → ℕ → Option Preference → Store → Store
unfolding trip_audit trip_notice
announce now user none s = s
announce now user (some p) s =
    let t = get_or p.circuit_broken_at now in
    if leb breaker_limit p.consecutive_failures
      && (p.circuit_broken && not (any (recorded_since user t) s.audit_events))
    then record s {
      audit_events = s.audit_events ++ trip_audit user t p ∷ [];
      notifications = s.notifications ++ trip_notice user t ∷ [];
    }
    else s

unfoldable pub audit_ssrf : ℕ → ℕ → Bool → Store → Store
unfolding ssrf_audit
audit_ssrf now user true s = record s { audit_events = s.audit_events ++ ssrf_audit user now ∷ [] }
audit_ssrf now user false s = s

unfoldable pub increment_circuit_breaker : ℕ → ℕ → Bool → Store → Store
unfolding announce audit_ssrf
increment_circuit_breaker now user is_ssrf s =
    let preferences = update (λ p. p.user_id == user) (counted now) s.preferences in
    audit_ssrf now user is_ssrf
      (announce now user (row_of user_of user preferences) (record s { preferences = preferences }))

-- `SET consecutive_failures = 0 WHERE user_id = :user_id AND NOT circuit_broken`
unfoldable pub reset_counter : ℕ → Store → Store
reset_counter user s = record s {
  preferences =
      update (λ p. p.user_id == user && not p.circuit_broken)
        (λ p. record p { consecutive_failures = 0 }) s.preferences;
}
