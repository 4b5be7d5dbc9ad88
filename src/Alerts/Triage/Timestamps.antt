-- ===== src/Alerts/Triage/Timestamps.antt =====
-- The status of an alert agrees with its time stamps and its dismissal reason.
use ai_cyber_security_suite.Prelude.{
  ℕ, ◌≤◌, ◌≡◌, refl, sym, subst, ◌∙◌, inl, inr, Bool, true, false, Option, some, some_inj, List,
  ltb, ltb→le, ◌==◌, ==_iff, is_none, length, All, All-mono, All-and, All-update, All-find, find,
  update, row_of, row_of_self, Distinct, Bool-cases,
}
use ai_cyber_security_suite.Alerts.Model.{
  AlertStatus, open_, acknowledged, resolved, dismissed, allowed, Alert, Store, Request, ok,
}
use ai_cyber_security_suite.Alerts.Triage.{
  lock_and_get_alert, acknowledge, resolve, dismiss, reopen, Operation, target_of, triage,
}
use ai_cyber_security_suite.Alerts.Triage.Transition.{Answer, triage-Answer}
use ai_cyber_security_suite.Alerts.Triage.Rows.{assign, too_short}

-- Which of the columns acknowledged_at, resolved_at, dismissed_at and dismiss_reason a status asks for.
abbrev pub Fits : AlertStatus → Option ℕ → Option ℕ → Option ℕ → Option (List ℕ) → Type 0
Fits open_ seen settled waived why =
    (is_none seen ≡ true)
    × (is_none settled ≡ true)
    × (is_none waived ≡ true)
    × (is_none why ≡ true)
Fits acknowledged seen settled waived why =
    (is_none seen ≡ false)
    × (is_none settled ≡ true)
    × (is_none waived ≡ true)
    × (is_none why ≡ true)
Fits resolved seen settled waived why =
    (is_none settled ≡ false) × (is_none waived ≡ true) × (is_none why ≡ true)
Fits dismissed seen settled waived why =
    (is_none settled ≡ true)
    × (is_none waived ≡ false)
    × ((reason : List ℕ) × (why ≡ some reason) × (3 ≤ length reason))

abbrev pub IsConsistent : Alert → Type 0
IsConsistent a = Fits a.status a.acknowledged_at a.resolved_at a.dismissed_at a.dismiss_reason

Fits-acknowledged :
    (st : AlertStatus) (now : ℕ) (seen settled waived : Option ℕ) (why : Option (List ℕ))
    → allowed st acknowledged ≡ true
    → Fits st seen settled waived why
    → Fits acknowledged (some now) settled waived why
Fits-acknowledged open_ now seen settled waived why h (a, b, c, d) = (refl, b, c, d)
Fits-acknowledged acknowledged now seen settled waived why h f = cc
Fits-acknowledged resolved now seen settled waived why h f = cc
Fits-acknowledged dismissed now seen settled waived why h f = cc

Fits-resolved :
    (st : AlertStatus) (now : ℕ) (seen settled waived : Option ℕ) (why : Option (List ℕ))
    → allowed st resolved ≡ true
    → Fits st seen settled waived why
    → Fits resolved seen (some now) waived why
Fits-resolved open_ now seen settled waived why h (a, b, c, d) = (refl, c, d)
Fits-resolved acknowledged now seen settled waived why h (a, b, c, d) = (refl, c, d)
Fits-resolved resolved now seen settled waived why h f = cc
Fits-resolved dismissed now seen settled waived why h f = cc

Fits-dismissed :
    (st : AlertStatus) (now : ℕ) (seen settled waived : Option ℕ) (why : Option (List ℕ))
    → (reason : List ℕ) → ltb (length reason) 3 ≡ false
    → allowed st dismissed ≡ true
    → Fits st seen settled waived why
    → Fits dismissed seen settled (some now) (some reason)
Fits-dismissed open_ now seen settled waived why reason short h (a, b, c, d) =
    (b, refl, (reason, refl, ltb→le _ _ short))
Fits-dismissed acknowledged now seen settled waived why reason short h (a, b, c, d) =
    (b, refl, (reason, refl, ltb→le _ _ short))
Fits-dismissed resolved now seen settled waived why reason short h f = cc
Fits-dismissed dismissed now seen settled waived why reason short h f = cc

module _ (strip : List ℕ → List ℕ) (r : Request) (uuid : ℕ) where
  assign-IsConsistent :
      (op : Operation) (a : Alert)
      → too_short strip op ≡ false
      → allowed a.status (target_of op) ≡ true
      → IsConsistent a
      → IsConsistent (assign strip r.now op a)
  assign-IsConsistent (acknowledge notes triage_notes) a short h f =
      Fits-acknowledged a.status r.now _ _ _ _ h f
  assign-IsConsistent (resolve notes resolution_notes triage_notes) a short h f =
      Fits-resolved a.status r.now _ _ _ _ h f
  assign-IsConsistent (dismiss dismiss_reason reason triage_notes notes) a short h f =
      Fits-dismissed a.status r.now _ _ _ _ _ short h f
  assign-IsConsistent (reopen reopen_notes notes triage_notes) a short h f =
      (refl, refl, refl, refl)

-- In a table with distinct ids, the row of a found row's id is that row.
pub the_row :
    (query : Alert → Bool) (xs : List Alert) (a x : Alert)
    → Distinct (λ y. y.ident) xs
    → find query xs ≡ some a
    → row_of (λ y. y.ident) x.ident xs ≡ some x
    → (x.ident == a.ident) ≡ true
    → x ≡ a
the_row query xs a x d e self same = some_inj.0 (
    sym self
    ∙ (rw ((==_iff x.ident a.ident).0 same) (
        All-find (λ y. row_of (λ z. z.ident) y.ident xs ≡ some y) query xs a
          (row_of_self (λ y. y.ident) xs d) e)))

-- In a table with distinct ids, a property of all rows that a change gives its own row holds after it.
pub All-changed {κ} :
    (P : Alert → Type κ) (query : Alert → Bool) (f : Alert → Alert) (xs : List Alert) (a : Alert)
    → Distinct (λ y. y.ident) xs
    → find query xs ≡ some a
    → P (f a)
    → All (λ x. (x.ident == a.ident) ≡ false → P x) xs
    → All P (update (λ x. x.ident == a.ident) f xs)
All-changed P query f xs a d e new old = All-update P _ f xs (
    All-mono _ _
      (λ x both. elim (Bool-cases (x.ident == a.ident)) [
        | inl y ↦ rw y (subst (λ z. P (f z)) (sym (the_row query xs a x d e both.0 y)) new)
        | inr n ↦ rw n (both.1 n)
      ])
      xs (All-and _ _ xs (row_of_self (λ y. y.ident) xs d) old))

-- Where no two alerts share an id, a triage request keeps the status of every alert in step with its
-- time stamps: an open alert has none, an acknowledged one was acknowledged only, a resolved one has its
-- time and is not dismissed, and a dismissed one has its time and a reason of three characters.
pub triage-IsConsistent :
    (strip : List ℕ → List ℕ) (r : Request) (uuid : ℕ) (op : Operation) (s t : Store) (b : Alert)
    → Distinct (λ a. a.ident) s.alerts
    → All IsConsistent s.alerts
    → triage strip r uuid op s ≡ ok t b
    → All IsConsistent t.alerts
unfolding lock_and_get_alert
triage-IsConsistent strip r uuid op s t b d all e =
    let (short, (a, found, ways)) =
      subst (Answer strip r uuid op s) e (triage-Answer strip r uuid s op) in
    elim ways [
      | inl (st, same, it) ↦ rw same all
      | inr (_, it, c) ↦ rw c.rows (
          All-changed IsConsistent _ (assign strip r.now op) s.alerts a d found
            (assign-IsConsistent strip r uuid op a short c.lawful
              (All-find IsConsistent _ s.alerts a all found))
            (All-mono _ _ (λ x p n. p) s.alerts all))
    ]
