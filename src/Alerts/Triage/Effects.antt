-- ===== src/Alerts/Triage/Effects.antt =====
-- What each triage operation writes into its row, its audit event and the notifications.
use ai_cyber_security_suite.Prelude.{ℕ, ◌≡◌, Option, none, some, List, [], ◌∷◌, or_else}
use ai_cyber_security_suite.Alerts.Model.{
  Alert, Action, alert_acknowledged, alert_resolved, alert_dismissed, alert_reopened, Notification,
}
use ai_cyber_security_suite.Alerts.Triage.{
  Operation, acknowledge, resolve, dismiss, reopen, target_of,
}

-- The columns that no operation changes.
pub record IsSame (a b : Alert) : Type 0 where
  pub ident : b.ident ≡ a.ident
  pub alert_uuid : b.alert_uuid ≡ a.alert_uuid
  pub title : b.title ≡ a.title
  pub severity : b.severity ≡ a.severity
  pub rule_name : b.rule_name ≡ a.rule_name
  pub indicator_type : b.indicator_type ≡ a.indicator_type
  pub indicator_value : b.indicator_value ≡ a.indicator_value
  pub first_seen_at : b.first_seen_at ≡ a.first_seen_at
  pub fingerprint : b.fingerprint ≡ a.fingerprint
  pub occurrence_count : b.occurrence_count ≡ a.occurrence_count
  pub last_seen_at : b.last_seen_at ≡ a.last_seen_at
  pub user_id : b.user_id ≡ a.user_id
  pub incident_id : b.incident_id ≡ a.incident_id

-- The time stamps and the reason: an operation sets its own stamp, and reopening clears them all.
abbrev pub IsStamped : ℕ → List ℕ → Operation → Alert → Alert → Type 0
IsStamped now reason (acknowledge _ _) a b =
    (b.acknowledged_at ≡ some now)
    × (b.resolved_at ≡ a.resolved_at)
    × (b.dismissed_at ≡ a.dismissed_at)
    × (b.dismiss_reason ≡ a.dismiss_reason)
IsStamped now reason (resolve _ _ _) a b =
    (b.acknowledged_at ≡ a.acknowledged_at)
    × (b.resolved_at ≡ some now)
    × (b.dismissed_at ≡ a.dismissed_at)
    × (b.dismiss_reason ≡ a.dismiss_reason)
IsStamped now reason (dismiss _ _ _ _) a b =
    (b.acknowledged_at ≡ a.acknowledged_at)
    × (b.resolved_at ≡ a.resolved_at)
    × (b.dismissed_at ≡ some now)
    × (b.dismiss_reason ≡ some reason)
IsStamped now reason (reopen _ _ _) a b =
    (b.acknowledged_at ≡ none)
    × (b.resolved_at ≡ none)
    × (b.dismissed_at ≡ none)
    × (b.dismiss_reason ≡ none)

-- The notes of the request, the operation's own field first; an old note stays where there are none.
abbrev pub notes_of : Operation → Option ℕ
notes_of (acknowledge notes triage_notes) = or_else triage_notes notes
notes_of (resolve notes resolution_notes triage_notes) =
    or_else resolution_notes (or_else triage_notes notes)
notes_of (dismiss _ _ triage_notes notes) = or_else triage_notes notes
notes_of (reopen reopen_notes notes triage_notes) =
    or_else reopen_notes (or_else triage_notes notes)

abbrev pub action_of : Operation → Action
action_of (acknowledge _ _) = alert_acknowledged
action_of (resolve _ _ _) = alert_resolved
action_of (dismiss _ _ _ _) = alert_dismissed
action_of (reopen _ _ _) = alert_reopened

-- What the SOC event tells besides: the time, but for a reopening, and the reason of a dismissal.
abbrev pub told_at : ℕ → Operation → Option ℕ
told_at now (reopen _ _ _) = none
told_at now _ = some now

abbrev pub told_reason : List ℕ → Operation → Option (List ℕ)
told_reason reason (dismiss _ _ _ _) = some reason
told_reason reason _ = none

-- One notification of an alert for its user, none for an alert of the system.
abbrev pub TellsOwner : ℕ → Alert → Option ℕ → List Notification → Type 0
TellsOwner now a none told = told ≡ []
TellsOwner now a (some user) told =
    told
    ≡ record { user_id = user; alert_uuid = a.alert_uuid; severity = a.severity; created_at = now }
      ∷ []

-- Reopening notifies the user of the alert, and nothing else does.
abbrev pub Notifies : ℕ → Operation → Alert → List Notification → Type 0
Notifies now (reopen _ _ _) a told = TellsOwner now a a.user_id told
Notifies now _ a told = told ≡ []

-- The row that an operation leaves.
pub record Row (now : ℕ) (reason : List ℕ) (op : Operation) (a b : Alert) : Type 0 where
  pub status : b.status ≡ target_of op
  pub stamped : IsStamped now reason op a b
  pub notes : b.triage_notes ≡ or_else (notes_of op) a.triage_notes
  pub same : IsSame a b
