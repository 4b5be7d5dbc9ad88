-- ===== src/Alerts/Triage.antt =====
-- The four triage operations. Each locks the alert, returns at once where the status is already the
-- target, checks the transition, and then writes the alert, one audit event and one SOC event in one
-- commit, and publishes that event. `strip` is Python's str.strip.
pub mod Transition
pub mod Effects
pub mod Rows
pub mod Audit
pub mod Timestamps
pub mod Isolation
pub mod History
use ai_cyber_security_suite.Prelude.{
  ℕ, Bool, true, false, not, ◌||◌, ◌&&◌, Option, none, some, List, [], ◌∷◌, ◌++◌, if◌then◌else◌,
  ltb, ◌==◌, get_or, or_else, find, update, length,
}
use ai_cyber_security_suite.Alerts.Model.{
  AlertStatus, open_, acknowledged, resolved, dismissed, status_eq, allowed, Alert, User, Action,
  alert_acknowledged, alert_resolved, alert_dismissed, alert_reopened, AuditEvent, SocEvent,
  Notification, Store, Request, Failure, not_found, invalid_transition, reason_too_short, Result,
  ok, err, visible,
}

-- The first alert of the query.
unfoldable pub lock_and_get_alert : Request → ℕ → Store → Option Alert
lock_and_get_alert r uuid s = find (visible r.user uuid) s.alerts

unfoldable pub audit : Request → Action → Alert → AlertStatus → AuditEvent
audit r action a target = record {
  action = action;
  actor_user_id = r.user.ident;
  resource_id = a.alert_uuid;
  previous_status = a.status;
  new_status = target;
  created_at = r.now;
}

unfoldable pub soc_event :
    Request → Alert → AlertStatus → Option ℕ → Option (List ℕ) → Option ℕ → SocEvent
soc_event r a target at reason notes = record {
  cursor_id = r.cursor;
  tenant_id = get_or a.user_id 0;
  aggregate_id = a.alert_uuid;
  status = target;
  previous_status = a.status;
  severity = a.severity;
  at = at;
  dismiss_reason = reason;
  notes = notes;
  created_at = r.now;
}

-- The row is written under its id; `f` is what the operation assigns.
unfoldable pub commit :
    Alert → (Alert → Alert) → AuditEvent → SocEvent → List Notification → Store → Result
commit a f audited told notices s =
    ok
      (record {
        alerts = update (λ x. x.ident == a.ident) f s.alerts;
        audit_events = s.audit_events ++ audited ∷ [];
        soc_events = s.soc_events ++ told ∷ [];
        notifications = s.notifications ++ notices;
        published = s.published ++ told ∷ [];
      })
      (f a)

-- Notes overwrite the alert's notes where there are any.
abbrev pub noted : Option ℕ → Option ℕ → Option ℕ
noted new old = or_else new old

abbrev pub acknowledge_row : ℕ → Option ℕ → Alert → Alert
acknowledge_row now notes a = record a {
  status = acknowledged;
  acknowledged_at = some now;
  triage_notes = noted notes a.triage_notes;
}

abbrev pub resolve_row : ℕ → Option ℕ → Alert → Alert
resolve_row now notes a = record a {
  status = resolved;
  resolved_at = some now;
  triage_notes = noted notes a.triage_notes;
}

abbrev pub dismiss_row : ℕ → List ℕ → Option ℕ → Alert → Alert
dismiss_row now reason notes a = record a {
  status = dismissed;
  dismissed_at = some now;
  dismiss_reason = some reason;
  triage_notes = noted notes a.triage_notes;
}

abbrev pub reopen_row : Option ℕ → Alert → Alert
reopen_row notes a = record a {
  status = open_;
  resolved_at = none;
  dismissed_at = none;
  acknowledged_at = none;
  dismiss_reason = none;
  triage_notes = noted notes a.triage_notes;
}

acknowledge_found : Request → Option ℕ → Store → Option Alert → Result
unfolding audit soc_event commit
acknowledge_found r notes s none = err not_found
acknowledge_found r notes s (some a) =
    if status_eq a.status acknowledged
    then ok s a
    else if not (allowed a.status acknowledged)
    then err (invalid_transition a.status acknowledged)
    else commit a (acknowledge_row r.now notes) (audit r alert_acknowledged a acknowledged)
        (soc_event r a acknowledged (some r.now) none notes) [] s

unfoldable pub do_acknowledge : Request → ℕ → Option ℕ → Option ℕ → Store → Result
unfolding acknowledge_found
do_acknowledge r uuid notes triage_notes s =
    acknowledge_found r (or_else triage_notes notes) s (lock_and_get_alert r uuid s)

resolve_found : Request → Option ℕ → Store → Option Alert → Result
unfolding audit soc_event commit
resolve_found r notes s none = err not_found
resolve_found r notes s (some a) =
    if status_eq a.status resolved
    then ok s a
    else if not (allowed a.status resolved)
    then err (invalid_transition a.status resolved)
    else commit a (resolve_row r.now notes) (audit r alert_resolved a resolved)
        (soc_event r a resolved (some r.now) none notes) [] s

unfoldable pub do_resolve : Request → ℕ → Option ℕ → Option ℕ → Option ℕ → Store → Result
unfolding resolve_found
do_resolve r uuid notes resolution_notes triage_notes s =
    resolve_found r (or_else resolution_notes (or_else triage_notes notes)) s
      (lock_and_get_alert r uuid s)

unfoldable pub dismiss_found : Request → List ℕ → Option ℕ → Store → Option Alert → Result
unfolding audit soc_event commit
dismiss_found r reason notes s none = err not_found
dismiss_found r reason notes s (some a) =
    if status_eq a.status dismissed
    then ok s a
    else if not (allowed a.status dismissed)
    then err (invalid_transition a.status dismissed)
    else commit a (dismiss_row r.now reason notes) (audit r alert_dismissed a dismissed)
        (soc_event r a dismissed (some r.now) (some reason) notes) [] s

unfoldable pub do_dismiss : Request → ℕ → List ℕ → Option ℕ → Store → Result
unfolding dismiss_found
do_dismiss r uuid clean_reason clean_notes s =
    dismiss_found r clean_reason clean_notes s (lock_and_get_alert r uuid s)

-- `first or second` of two texts: an empty one counts as none.
abbrev pub first_text : Option (List ℕ) → Option (List ℕ) → Option (List ℕ)
first_text none second = second
first_text (some []) second = second
first_text (some (c ∷ s)) second = some (c ∷ s)

-- The reason is stripped and must have three characters, before the alert is looked up.
unfoldable pub dismiss_alert :
    (List ℕ → List ℕ)
    → Request
    → ℕ
    → Option (List ℕ)
    → Option (List ℕ)
    → Option ℕ
    → Option ℕ
    → Store
    → Result
dismiss_alert strip r uuid dismiss_reason reason triage_notes notes s =
    let clean_reason = strip (get_or (first_text dismiss_reason reason) []) in
    if ltb (length clean_reason) 3
    then err reason_too_short
    else do_dismiss r uuid clean_reason (or_else triage_notes notes) s

unfoldable pub notices : Request → Alert → Option ℕ → List Notification
notices r a none = []
notices r a (some u) =
    record { user_id = u; alert_uuid = a.alert_uuid; severity = a.severity; created_at = r.now }
    ∷ []

reopen_found : Request → Option ℕ → Store → Option Alert → Result
unfolding audit soc_event commit notices
reopen_found r notes s none = err not_found
reopen_found r notes s (some a) =
    if status_eq a.status open_
    then ok s a
    else if not (allowed a.status open_)
    then err (invalid_transition a.status open_)
    else commit a (reopen_row notes) (audit r alert_reopened a open_)
        (soc_event r a open_ none none notes) (notices r a a.user_id) s

unfoldable pub do_reopen : Request → ℕ → Option ℕ → Option ℕ → Option ℕ → Store → Result
unfolding reopen_found
do_reopen r uuid reopen_notes notes triage_notes s =
    reopen_found r (or_else reopen_notes (or_else triage_notes notes)) s
      (lock_and_get_alert r uuid s)

-- One triage request, with its arguments.
pub data Operation : Type 0 where
  acknowledge : Option ℕ → Option ℕ → Operation
  resolve : Option ℕ → Option ℕ → Option ℕ → Operation
  dismiss : Option (List ℕ) → Option (List ℕ) → Option ℕ → Option ℕ → Operation
  reopen : Option ℕ → Option ℕ → Option ℕ → Operation

abbrev pub target_of : Operation → AlertStatus
target_of (acknowledge _ _) = acknowledged
target_of (resolve _ _ _) = resolved
target_of (dismiss _ _ _ _) = dismissed
target_of (reopen _ _ _) = open_

unfoldable pub triage : (List ℕ → List ℕ) → Request → ℕ → Operation → Store → Result
triage strip r uuid (acknowledge notes triage_notes) s = do_acknowledge r uuid notes triage_notes s
triage strip r uuid (resolve notes resolution_notes triage_notes) s =
    do_resolve r uuid notes resolution_notes triage_notes s
triage strip r uuid (dismiss dismiss_reason reason triage_notes notes) s =
    dismiss_alert strip r uuid dismiss_reason reason triage_notes notes s
triage strip r uuid (reopen reopen_notes notes triage_notes) s =
    do_reopen r uuid reopen_notes notes triage_notes s
