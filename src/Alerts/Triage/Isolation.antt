-- ===== src/Alerts/Triage/Isolation.antt =====
-- Which alerts a user reaches, and the same request twice.
use ai_cyber_security_suite.Prelude.{
  ℕ, ◌≡◌, refl, sym, ap, subst, ◌∙◌, inl, inr, Bool, true, false, ◌||◌, some, some_inj, List, ◌==◌,
  ==_iff, sql_eq, find, find_passes, find-update, update, row_of, row_of-update, Distinct,
  Bool-cases, clash, arith,
}
use ai_cyber_security_suite.Alerts.Model.{
  AlertStatus, open_, acknowledged, resolved, dismissed, status_eq, allowed, Alert, User, Store,
  Request, not_found, invalid_transition, reason_too_short, Result, ok, err, visible,
}
use ai_cyber_security_suite.Alerts.Triage.{
  lock_and_get_alert, acknowledge, resolve, dismiss, reopen, Operation, target_of, triage,
}
use ai_cyber_security_suite.Alerts.Triage.Transition.{Answer, triage-Answer}
use ai_cyber_security_suite.Alerts.Triage.Rows.{assign, too_short}
use ai_cyber_security_suite.Alerts.Triage.Timestamps.{the_row}
use ai_cyber_security_suite.Alerts.Triage.Audit.{assign-ident, assign-status, status_eq_self}

-- Whether the alert is in the scope of a user: every one for an admin, else the user's own.
abbrev pub in_scope : User → Alert → Bool
in_scope u a = u.is_admin || sql_eq a.user_id u.ident

visible-in_scope : (u : User) (uuid : ℕ) (a : Alert) → visible u uuid a ≡ true → in_scope u a ≡ true
visible-in_scope u uuid a h = ground arith

-- Where no two alerts share an id, a triage request does not touch an alert outside its user's
-- scope, whichever uuid it names.
pub triage_stays_in_scope :
    (strip : List ℕ → List ℕ) (r : Request) (uuid : ℕ) (op : Operation) (s t : Store) (b x : Alert)
    → Distinct (λ a. a.ident) s.alerts
    → triage strip r uuid op s ≡ ok t b
    → row_of (λ a. a.ident) x.ident s.alerts ≡ some x
    → in_scope r.user x ≡ false
    → row_of (λ a. a.ident) x.ident t.alerts ≡ some x
unfolding lock_and_get_alert
triage_stays_in_scope strip r uuid op s t b x d e here out =
    let (short, (a, found, ways)) =
      subst (Answer strip r uuid op s) e (triage-Answer strip r uuid s op) in
    elim ways [
      | inl (st, same, it) ↦ rw same here
      | inr (_, it, c) ↦ elim (Bool-cases (x.ident == a.ident)) [
        | inr n ↦ rw c.rows (
            row_of-update (λ y. y.ident) (λ y. y.ident == a.ident) (assign strip r.now op)
              (assign-ident strip r.now op) x.ident s.alerts x here
            ∙ ap some (rw n refl))
        | inl y ↦
            elim (clash _
              (visible-in_scope r.user uuid x (
                rw (the_row (visible r.user uuid) s.alerts a x d found here y)
                  (find_passes (visible r.user uuid) s.alerts a found)))
              out) [ ]
      ]
    ]

visible-same :
    (strip : List ℕ → List ℕ) (now : ℕ) (op : Operation) (u : User) (uuid : ℕ) (a : Alert)
    → visible u uuid (assign strip now op a) ≡ visible u uuid a
visible-same strip now (acknowledge n t) u uuid a = refl
visible-same strip now (resolve n m t) u uuid a = refl
visible-same strip now (dismiss n m t k) u uuid a = refl
visible-same strip now (reopen n m t) u uuid a = refl

not_allowed_self : (st : AlertStatus) → allowed st st ≡ false
not_allowed_self open_ = refl
not_allowed_self acknowledged = refl
not_allowed_self resolved = refl
not_allowed_self dismissed = refl

-- A request for an alert that is in the target status already returns the alert and the tables.
settled_already :
    (strip : List ℕ → List ℕ) (r : Request) (uuid : ℕ) (op : Operation) (t : Store) (b : Alert)
    → (q : Result) → Answer strip r uuid op t q
    → too_short strip op ≡ false
    → lock_and_get_alert r uuid t ≡ some b
    → b.status ≡ target_of op
    → q ≡ ok t b
settled_already strip r uuid op t b (err not_found) none_found short found st = cc
settled_already strip r uuid op t b (err (invalid_transition old new)) (a, here, e, k, ne, _) short
      found st =
    let row : a ≡ b = some_inj.0 (sym here ∙ found) in
    let at_target : old ≡ new = e ∙ (ap (λ z. z.status) row ∙ (st ∙ sym k)) in
    elim (clash _ (status_eq_self new) (subst (λ z. status_eq z new ≡ false) at_target ne)) [ ]
settled_already strip r uuid op t b (err reason_too_short) long short found st =
    elim (clash _ long short) [ ]
settled_already strip r uuid op t b (ok t' b') (s', (a, here, inl (_, same, it))) short found st =
    let row : a ≡ b = some_inj.0 (sym here ∙ found) in ap (λ z. ok z b') same ∙ ap (ok t) (it ∙ row)
settled_already strip r uuid op t b (ok t' b') (s', (a, here, inr (_, _, c))) short found st =
    let row : a ≡ b = some_inj.0 (sym here ∙ found) in
    let at_target : a.status ≡ target_of op = ap (λ z. z.status) row ∙ st in
    elim (clash _ c.lawful (
      subst (λ z. allowed z (target_of op) ≡ false) (sym at_target)
        (not_allowed_self (target_of op)))) [ ]

found_after :
    (strip : List ℕ → List ℕ) (r : Request) (uuid : ℕ) (op : Operation) (xs : List Alert)
    (a : Alert)
    → find (visible r.user uuid) xs ≡ some a
    → find (visible r.user uuid) (update (λ x. x.ident == a.ident) (assign strip r.now op) xs)
      ≡ some (assign strip r.now op a)
found_after strip r uuid op xs a e =
    find-update (visible r.user uuid) (λ x. x.ident == a.ident) (assign strip r.now op)
      (visible-same strip r.now op r.user uuid) xs a e
    ∙ ap some (rw ((==_iff a.ident a.ident).1 refl) refl)

-- Triage requests are idempotent: the same request again, at any later time, by the same user, returns
-- the same alert and leaves all tables as they are, so that nothing is audited or published twice.
pub triage_again :
    (strip : List ℕ → List ℕ) (r r' : Request) (uuid : ℕ) (op : Operation) (s t : Store) (b : Alert)
    → r'.user ≡ r.user
    → triage strip r uuid op s ≡ ok t b
    → triage strip r' uuid op t ≡ ok t b
unfolding lock_and_get_alert
triage_again strip r r' uuid op s t b user e =
    let (short, (a, found, ways)) =
      subst (Answer strip r uuid op s) e (triage-Answer strip r uuid s op) in
    elim ways [
      | inl (st, same, it) ↦
          settled_already strip r' uuid op t b _ (triage-Answer strip r' uuid t op) short
            (rw (user, same, it) found) (rw it st)
      | inr (_, it, c) ↦
          settled_already strip r' uuid op t b _ (triage-Answer strip r' uuid t op) short
            (rw (user, c.rows, it) (found_after strip r uuid op s.alerts a found))
            (rw it (assign-status strip r.now op a))
    ]
