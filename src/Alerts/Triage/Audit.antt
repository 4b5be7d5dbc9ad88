-- ===== src/Alerts/Triage/Audit.antt =====
-- The audit trail and the event stream of triage requests, over any sequence of them.
use ai_cyber_security_suite.Prelude.{
  ℕ, ◌≡◌, refl, sym, ap, ◌∙◌, inl, inr, Bool, true, false, ◌&&◌, Option, none, some, some_inj, List,
  [], ◌∷◌, ◌++◌, if◌then◌else◌, ◌==◌, ==_iff, All, All-mono, All-and, All-find, find, row_of,
  row_of_self, Distinct, Bool-cases, clash,
}
use ai_cyber_security_suite.Alerts.Model.{
  AlertStatus, open_, acknowledged, resolved, dismissed, status_eq, allowed, Alert, AuditEvent,
  Store, Request,
}
use ai_cyber_security_suite.Alerts.Triage.{
  acknowledge, resolve, dismiss, reopen, Operation, target_of,
}
use ai_cyber_security_suite.Alerts.Triage.Transition.{Change}
use ai_cyber_security_suite.Alerts.Triage.Rows.{assign}
use ai_cyber_security_suite.Alerts.Triage.Timestamps.{All-changed}

-- What the audit events on one alert lead to from a status; none where an event does not start at the
-- status reached so far, or is not a lawful transition.
abbrev pub replay : ℕ → AlertStatus → List AuditEvent → Option AlertStatus
replay uuid st [] = some st
replay uuid st (e ∷ es) =
    let rest = replay uuid e.new_status es in
    let other = replay uuid st es in
    if e.resource_id == uuid
    then (if status_eq e.previous_status st && allowed st e.new_status then rest else none)
    else other

-- The audit trail leads from the open status to the status that the alert has.
abbrev pub IsAudited : List AuditEvent → Alert → Type 0
IsAudited es a = replay a.alert_uuid open_ es ≡ some a.status

replay-snoc :
    (uuid : ℕ) (st m : AlertStatus) (es : List AuditEvent) (e : AuditEvent)
    → replay uuid st es ≡ some m
    → replay uuid st (es ++ e ∷ []) ≡ replay uuid m (e ∷ [])
replay-snoc uuid st m [] e h = ap (λ z. replay uuid z (e ∷ [])) (some_inj.0 h)
replay-snoc uuid st m (x ∷ es) e h = elim (Bool-cases (x.resource_id == uuid)) [
  | inr n ↦ rw n (replay-snoc uuid st m es e (rw n at h))
  | inl y ↦ elim (Bool-cases (status_eq x.previous_status st && allowed st x.new_status)) [
    | inr n ↦ cc
    | inl k ↦ rw (y, k) (replay-snoc uuid x.new_status m es e (rw (y, k) at h))
  ]
]

pub status_eq_self : (st : AlertStatus) → status_eq st st ≡ true
status_eq_self open_ = refl
status_eq_self acknowledged = refl
status_eq_self resolved = refl
status_eq_self dismissed = refl

-- An event on the alert goes to its new status.
replay_own :
    (uuid : ℕ) (m : AlertStatus) (e : AuditEvent)
    → e.resource_id ≡ uuid
    → e.previous_status ≡ m
    → allowed m e.new_status ≡ true
    → replay uuid m (e ∷ []) ≡ some e.new_status
replay_own uuid m e own from lawful =
    rw ((==_iff e.resource_id uuid).1 own, from, status_eq_self m, lawful) refl

replay_other :
    (uuid : ℕ) (m : AlertStatus) (e : AuditEvent)
    → (e.resource_id == uuid) ≡ false
    → replay uuid m (e ∷ []) ≡ some m
replay_other uuid m e other = rw other refl

pub assign-status :
    (strip : List ℕ → List ℕ) (now : ℕ) (op : Operation) (a : Alert)
    → (assign strip now op a).status ≡ target_of op
assign-status strip now (acknowledge n t) a = refl
assign-status strip now (resolve n m t) a = refl
assign-status strip now (dismiss n m t k) a = refl
assign-status strip now (reopen n m t) a = refl

pub assign-alert_uuid :
    (strip : List ℕ → List ℕ) (now : ℕ) (op : Operation) (a : Alert)
    → (assign strip now op a).alert_uuid ≡ a.alert_uuid
assign-alert_uuid strip now (acknowledge n t) a = refl
assign-alert_uuid strip now (resolve n m t) a = refl
assign-alert_uuid strip now (dismiss n m t k) a = refl
assign-alert_uuid strip now (reopen n m t) a = refl

pub assign-ident :
    (strip : List ℕ → List ℕ) (now : ℕ) (op : Operation) (a : Alert)
    → (assign strip now op a).ident ≡ a.ident
assign-ident strip now (acknowledge n t) a = refl
assign-ident strip now (resolve n m t) a = refl
assign-ident strip now (dismiss n m t k) a = refl
assign-ident strip now (reopen n m t) a = refl

-- In a table with distinct uuids, another row has another uuid.
other_uuid :
    (query : Alert → Bool) (xs : List Alert) (a x : Alert)
    → Distinct (λ y. y.alert_uuid) xs
    → find query xs ≡ some a
    → row_of (λ y. y.alert_uuid) x.alert_uuid xs ≡ some x
    → (x.ident == a.ident) ≡ false
    → (a.alert_uuid == x.alert_uuid) ≡ false
other_uuid query xs a x d e self n = elim (Bool-cases (a.alert_uuid == x.alert_uuid)) [
  | inr k ↦ k
  | inl e_uuid ↦
      let own =
        All-find (λ y. row_of (λ z. z.alert_uuid) y.alert_uuid xs ≡ some y) query xs a
          (row_of_self (λ y. y.alert_uuid) xs d) e in
      let same : x ≡ a =
        some_inj.0 (sym self ∙ rw (sym ((==_iff a.alert_uuid x.alert_uuid).0 e_uuid)) own) in
      elim (clash _ ((==_iff x.ident a.ident).1 (ap (λ z. z.ident) same)) n) [ ]
]

-- One change keeps the audit trail of every alert.
pub Change-IsAudited :
    (strip : List ℕ → List ℕ) (r : Request) (op : Operation) (query : Alert → Bool) (a : Alert)
    → (s t : Store) → find query s.alerts ≡ some a
    → Distinct (λ x. x.ident) s.alerts
    → Distinct (λ x. x.alert_uuid) s.alerts
    → Change strip r op (assign strip r.now op) a s t
    → All (IsAudited s.audit_events) s.alerts
    → All (IsAudited t.audit_events) t.alerts
Change-IsAudited strip r op query a s t found ids uuids c all =
    rw (c.rows, c.audited)
      (All-changed (IsAudited (s.audit_events ++ c.event ∷ [])) query (assign strip r.now op)
        s.alerts a ids found
        (rw (assign-alert_uuid strip r.now op a, assign-status strip r.now op a)
          (replay-snoc a.alert_uuid open_ a.status s.audit_events c.event
              (All-find (IsAudited s.audit_events) query s.alerts a all found)
            ∙ (replay_own a.alert_uuid a.status c.event c.event_resource c.event_from
                  (rw c.event_to c.lawful)
                ∙ ap some c.event_to)))
        (All-mono _ _
          (λ x both n.
            replay-snoc x.alert_uuid open_ x.status s.audit_events c.event both.1
            ∙ replay_other x.alert_uuid x.status c.event
                (rw c.event_resource (other_uuid query s.alerts a x uuids found both.0 n)))
          s.alerts (All-and _ _ s.alerts (row_of_self (λ x. x.alert_uuid) s.alerts uuids) all)))
