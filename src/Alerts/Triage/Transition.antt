-- ===== src/Alerts/Triage/Transition.antt =====
-- The shape the four triage operations share, and what one transition does to the tables.
use ai_cyber_security_suite.Prelude.{
  ℕ, true, false, not, Option, none, some, List, [], ◌∷◌, ◌++◌, if◌then◌else◌, ◌≡◌, refl, ◌⊎◌, inl,
  inr, ◌==◌, get_or, or_else, update, Bool-cases,
}
use ai_cyber_security_suite.Alerts.Model.{
  AlertStatus, open_, acknowledged, resolved, dismissed, status_eq, allowed, Alert, AuditEvent,
  SocEvent, Notification, Store, Request, Failure, not_found, invalid_transition, reason_too_short,
  Result, ok, err,
}
use ai_cyber_security_suite.Alerts.Triage.Effects.{
  notes_of, action_of, told_at, told_reason, Notifies, Row,
}
use ai_cyber_security_suite.Alerts.Triage.Rows.{
  assign, reason_of, too_short, assign-Row, notices-TellsOwner,
}
use ai_cyber_security_suite.Alerts.Triage.{
  first_text, lock_and_get_alert, audit, soc_event, commit, acknowledge_found, do_acknowledge,
  resolve_found, do_resolve, dismiss_found, do_dismiss, dismiss_alert, reopen_found, do_reopen,
  Operation, acknowledge, resolve, dismiss, reopen, target_of, triage,
}

-- One transition of an alert: its row, one audit event and one SOC event, which is published too.
pub record Change (strip : List ℕ → List ℕ) (r : Request) (op : Operation) (f : Alert → Alert)
    (a : Alert) (s t : Store) : Type 0 where
  pub event : AuditEvent
  pub told : SocEvent
  pub notices : List Notification
  pub lawful : allowed a.status (target_of op) ≡ true
  pub rows : t.alerts ≡ update (λ x. x.ident == a.ident) f s.alerts
  pub audited : t.audit_events ≡ s.audit_events ++ event ∷ []
  pub streamed : t.soc_events ≡ s.soc_events ++ told ∷ []
  pub published : t.published ≡ s.published ++ told ∷ []
  pub notified : t.notifications ≡ s.notifications ++ notices
  pub owner_told : Notifies r.now op a notices
  pub event_action : event.action ≡ action_of op
  pub event_time : event.created_at ≡ r.now
  pub event_actor : event.actor_user_id ≡ r.user.ident
  pub event_resource : event.resource_id ≡ a.alert_uuid
  pub event_from : event.previous_status ≡ a.status
  pub event_to : event.new_status ≡ target_of op
  pub told_resource : told.aggregate_id ≡ a.alert_uuid
  pub told_notes : told.notes ≡ notes_of op
  pub told_time : told.at ≡ told_at r.now op
  pub told_why : told.dismiss_reason ≡ told_reason (reason_of strip op) op
  pub told_severity : told.severity ≡ a.severity
  pub told_tenant : told.tenant_id ≡ get_or a.user_id 0
  pub told_from : told.previous_status ≡ a.status
  pub told_to : told.status ≡ target_of op

-- Why an operation was refused.
abbrev pub Refusal : (List ℕ → List ℕ) → Request → ℕ → Operation → Store → Failure → Type 0
Refusal strip r uuid op s not_found = lock_and_get_alert r uuid s ≡ none
Refusal strip r uuid op s (invalid_transition old new) =
    (a : Alert) × (lock_and_get_alert r uuid s ≡ some a)
    × (old ≡ a.status)
    × (new ≡ target_of op)
    × (status_eq old new ≡ false)
    × (allowed old new ≡ false)
Refusal strip r uuid op s reason_too_short = too_short strip op ≡ true

-- What a result tells of the operation that gave it.
abbrev pub Answer : (List ℕ → List ℕ) → Request → ℕ → Operation → Store → Result → Type 0
Answer strip r uuid op s (ok t b) =
    (too_short strip op ≡ false)
    × ((a : Alert) × (lock_and_get_alert r uuid s ≡ some a)
        × (((a.status ≡ target_of op) × (t ≡ s) × (b ≡ a))
            ⊎ (Row r.now (reason_of strip op) op a b
                × (b ≡ assign strip r.now op a)
                × Change strip r op (assign strip r.now op) a s t)))
Answer strip r uuid op s (err e) = Refusal strip r uuid op s e

pub status_eq→eq : (x y : AlertStatus) → status_eq x y ≡ true → x ≡ y
status_eq→eq open_ open_ h = refl
status_eq→eq open_ acknowledged h = cc
status_eq→eq open_ resolved h = cc
status_eq→eq open_ dismissed h = cc
status_eq→eq acknowledged open_ h = cc
status_eq→eq acknowledged acknowledged h = refl
status_eq→eq acknowledged resolved h = cc
status_eq→eq acknowledged dismissed h = cc
status_eq→eq resolved open_ h = cc
status_eq→eq resolved acknowledged h = cc
status_eq→eq resolved resolved h = refl
status_eq→eq resolved dismissed h = cc
status_eq→eq dismissed open_ h = cc
status_eq→eq dismissed acknowledged h = cc
status_eq→eq dismissed resolved h = cc
status_eq→eq dismissed dismissed h = refl

module _ (strip : List ℕ → List ℕ) (r : Request) (uuid : ℕ) (s : Store) where
  -- A committed transition is a change.
  Answer-commit :
      (op : Operation) (a : Alert) (told : List Notification)
      → Notifies r.now op a told
      → too_short strip op ≡ false
      → lock_and_get_alert r uuid s ≡ some a
      → allowed a.status (target_of op) ≡ true
      → Answer strip r uuid op s (
          commit a
            (assign strip r.now op)
            (audit r (action_of op) a (target_of op))
            (soc_event r a
              (target_of op)
              (told_at r.now op)
              (told_reason (reason_of strip op) op)
              (notes_of op))
            told
            s)
  unfolding audit soc_event commit
  Answer-commit op a told notified short e h = (
    short,
    (
      a,
      e,
      inr (
        assign-Row strip r.now op a,
        refl,
        record {
          event = audit r (action_of op) a (target_of op);
          told =
              soc_event r a (target_of op) (told_at r.now op) (told_reason (reason_of strip op) op)
                (notes_of op);
          notices = told;
          lawful = h;
          rows = refl;
          audited = refl;
          streamed = refl;
          published = refl;
          notified = refl;
          owner_told = notified;
          event_action = refl;
          event_time = refl;
          event_actor = refl;
          event_resource = refl;
          event_from = refl;
          event_to = refl;
          told_resource = refl;
          told_notes = refl;
          told_time = refl;
          told_why = refl;
          told_severity = refl;
          told_tenant = refl;
          told_from = refl;
          told_to = refl;
        },
      ),
    ),
  )

  -- The three ways of an operation on the alert it found.
  Answer-found :
      (op : Operation) (a : Alert) (changed : Result)
      → too_short strip op ≡ false
      → lock_and_get_alert r uuid s ≡ some a
      → (allowed a.status (target_of op) ≡ true → Answer strip r uuid op s changed)
      → Answer strip r uuid op s (
          if status_eq a.status (target_of op)
          then ok s a
          else if not (allowed a.status (target_of op))
          then err (invalid_transition a.status (target_of op))
          else changed)
  Answer-found op a changed short e k = elim (Bool-cases (status_eq a.status (target_of op))) [
    | inl same ↦ rw same (short, (a, e, inl (status_eq→eq _ _ same, refl, refl)))
    | inr other ↦ elim (Bool-cases (allowed a.status (target_of op))) [
      | inl can ↦ rw (other, can) (k can)
      | inr cannot ↦ rw (other, cannot) (a, e, refl, refl, other, cannot)
    ]
  ]

  Answer-acknowledge :
      (notes triage_notes : Option ℕ) (o : Option Alert)
      → lock_and_get_alert r uuid s ≡ o
      → Answer strip r uuid
          (acknowledge notes triage_notes)
          s
          (acknowledge_found r (or_else triage_notes notes) s o)
  unfolding acknowledge_found
  Answer-acknowledge notes triage_notes none e = e
  Answer-acknowledge notes triage_notes (some a) e =
      let op = acknowledge notes triage_notes in
      Answer-found op a _ refl e (Answer-commit op a _ refl refl e)

  Answer-resolve :
      (notes resolution_notes triage_notes : Option ℕ) (o : Option Alert)
      → lock_and_get_alert r uuid s ≡ o
      → Answer strip r uuid
          (resolve notes resolution_notes triage_notes)
          s
          (resolve_found r (or_else resolution_notes (or_else triage_notes notes)) s o)
  unfolding resolve_found
  Answer-resolve notes resolution_notes triage_notes none e = e
  Answer-resolve notes resolution_notes triage_notes (some a) e =
      let op = resolve notes resolution_notes triage_notes in
      Answer-found op a _ refl e (Answer-commit op a _ refl refl e)

  Answer-dismiss :
      (dismiss_reason reason : Option (List ℕ)) (triage_notes notes : Option ℕ) (o : Option Alert)
      → lock_and_get_alert r uuid s ≡ o
      → too_short strip (dismiss dismiss_reason reason triage_notes notes) ≡ false
      → Answer strip r uuid (dismiss dismiss_reason reason triage_notes notes) s (
          dismiss_found r
            (strip (get_or (first_text dismiss_reason reason) []))
            (or_else triage_notes notes)
            s
            o)
  unfolding dismiss_found
  Answer-dismiss dismiss_reason reason triage_notes notes none e h = e
  Answer-dismiss dismiss_reason reason triage_notes notes (some a) e h =
      let op = dismiss dismiss_reason reason triage_notes notes in
      Answer-found op a _ h e (Answer-commit op a _ refl h e)

  Answer-reopen :
      (reopen_notes notes triage_notes : Option ℕ) (o : Option Alert)
      → lock_and_get_alert r uuid s ≡ o
      → Answer strip r uuid
          (reopen reopen_notes notes triage_notes)
          s
          (reopen_found r (or_else reopen_notes (or_else triage_notes notes)) s o)
  unfolding reopen_found
  Answer-reopen reopen_notes notes triage_notes none e = e
  Answer-reopen reopen_notes notes triage_notes (some a) e =
      let op = reopen reopen_notes notes triage_notes in
      Answer-found op a _ refl e (Answer-commit op a _ (notices-TellsOwner r a a.user_id) refl e)

  -- Every triage request is refused for the reason its failure tells, or finds an alert that the user
  -- may see and either leaves the tables as they are, where the alert is already in the target status,
  -- or makes one lawful transition: the row takes the target status, the operation's time stamp, its notes
  -- if it has any and, for a dismissal, its stripped reason, a reopening clears all stamps and the reason,
  -- and the other columns stay; one audit event of the operation's action and one SOC event, both with the
  -- old and the new status, are appended, that SOC event is published, and a reopening, and nothing else,
  -- notifies the alert's user.
  pub triage-Answer : (op : Operation) → Answer strip r uuid op s (triage strip r uuid op s)
  unfolding triage do_acknowledge do_resolve do_dismiss dismiss_alert do_reopen
  triage-Answer (acknowledge notes triage_notes) = Answer-acknowledge notes triage_notes _ refl
  triage-Answer (resolve notes resolution_notes triage_notes) =
      Answer-resolve notes resolution_notes triage_notes _ refl
  triage-Answer (dismiss dismiss_reason reason triage_notes notes) =
      elim (Bool-cases (too_short strip (dismiss dismiss_reason reason triage_notes notes))) [
        | inl e ↦ rw e e
        | inr e ↦ rw e (Answer-dismiss dismiss_reason reason triage_notes notes _ refl e)
      ]
  triage-Answer (reopen reopen_notes notes triage_notes) =
      Answer-reopen reopen_notes notes triage_notes _ refl
