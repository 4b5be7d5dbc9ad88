-- ===== src/Notifications/Keys.antt =====
-- What reaches the outbox, and under which keys.
use ai_cyber_security_suite.Prelude.{
  ℕ, ◌/◌, ◌≡◌, refl, inl, inr, Bool, true, false, ◌&&◌, Option, none, some, List, [], ◌∷◌, ◌++◌,
  if◌then◌else◌, ltb, any, All, All-append, Bool-cases, if-cases, clash,
}
use ai_cyber_security_suite.Broadcaster.Envelope.{Severity, medium, critical}
use ai_cyber_security_suite.Alerts.Model.{Alert}
use ai_cyber_security_suite.Notifications.{
  Preferences, JobKey, alert_key, target_key, OutboxRow, Mailroom, preference_of, get_unread_count,
  Drawn, takes_in_app, notify, notify_alert, same_key, outbox_row, enqueue_job, takes_webhook,
  enqueue_to, enqueue_webhook, produce, create_in_app_and_outbox_for_alert, Suspension,
  takes_suspension, enqueue_suspension, create_target_suspension_notification,
  max_unread_notifications, target_status_changed,
}

-- No later row has the key of an earlier one.
abbrev pub IsKeyed : List OutboxRow → Type 0
IsKeyed [] = Unit
IsKeyed (x ∷ xs) = All (λ y. same_key x.key y.key ≡ false) xs × IsKeyed xs

pub data Production : Type 0 where
  for_alert : Drawn → Alert → Bool → Production
  for_suspension : Drawn → Suspension → Production

abbrev pub step : Production → Mailroom → Mailroom
step (for_alert d a escalated) m = create_in_app_and_outbox_for_alert d a escalated m
step (for_suspension d t) m = create_target_suspension_notification d t m

abbrev pub serve : List Production → Mailroom → Mailroom
serve [] m = m
serve (x ∷ xs) m = serve xs (step x m)

IsKeyed-snoc :
    (row : OutboxRow) (rs : List OutboxRow)
    → any (λ r. same_key r.key row.key) rs ≡ false
    → IsKeyed rs
    → IsKeyed (rs ++ row ∷ [])
IsKeyed-snoc row [] h k = (tt, tt)
IsKeyed-snoc row (x ∷ rs) h k = elim (Bool-cases (same_key x.key row.key)) [
  | inl e ↦ absurd (clash true refl (rw e at h))
  | inr e ↦ (All-append _ rs (row ∷ []) k.0 (e, tt), IsKeyed-snoc row rs (rw e at h) k.1)
]

enqueue-IsKeyed :
    (d : Drawn) (user url : ℕ) (k : JobKey) (m : Mailroom)
    → IsKeyed m.outbox
    → IsKeyed (enqueue_job d user url k m).outbox
enqueue-IsKeyed d user url k m h = elim (Bool-cases (any (λ r. same_key r.key k) m.outbox)) [
  | inl e ↦ rw e h
  | inr e ↦ rw e (IsKeyed-snoc (outbox_row d user url k) m.outbox e h)
]

to-IsKeyed :
    (d : Drawn) (user : ℕ) (k : JobKey) (url : Option ℕ) (m : Mailroom)
    → IsKeyed m.outbox
    → IsKeyed (enqueue_to d user k url m).outbox
to-IsKeyed d user k none m h = h
to-IsKeyed d user k (some url) m h = enqueue-IsKeyed d user url k m h

webhook-IsKeyed :
    (d : Drawn) (user : ℕ) (s : Severity) (k : JobKey) (p : Option Preferences) (m : Mailroom)
    → IsKeyed m.outbox
    → IsKeyed (enqueue_webhook d user s k p m).outbox
webhook-IsKeyed d user s k none m h = h
webhook-IsKeyed d user s k (some p) m h =
    if-cases (λ (v : Mailroom). IsKeyed v.outbox) (takes_webhook s p) _ _
      (λ e. to-IsKeyed d user k p.webhook_url m h) (λ e. h)

suspension-IsKeyed :
    (d : Drawn) (t : Suspension) (p : Option Preferences) (m : Mailroom)
    → IsKeyed m.outbox
    → IsKeyed (enqueue_suspension d t p m).outbox
suspension-IsKeyed d t none m h = h
suspension-IsKeyed d t (some p) m h =
    if-cases (λ (v : Mailroom). IsKeyed v.outbox) (takes_suspension p) _ _
      (λ e.
        to-IsKeyed d t.user_id (target_key t.target_uuid t.subtype (d.now / 60000000)) p.webhook_url
          m h)
      (λ e. h)

produce-IsKeyed :
    (d : Drawn) (a : Alert) (escalated : Bool) (user : Option ℕ) (m : Mailroom)
    → IsKeyed m.outbox
    → IsKeyed (produce d a escalated user m).outbox
produce-IsKeyed d a escalated none m h = h
produce-IsKeyed d a escalated (some user) m h =
    let p = preference_of user m.preferences in
    webhook-IsKeyed d user a.severity
      (alert_key a.alert_uuid escalated a.severity a.occurrence_count) p
      (notify_alert d user a.severity p m)
      (if-cases (λ (v : Mailroom). IsKeyed v.outbox)
        (takes_in_app p && ltb (get_unread_count user m.notices) max_unread_notifications) _ _
        (λ e. h) (λ e. h))

step-IsKeyed : (x : Production) (m : Mailroom) → IsKeyed m.outbox → IsKeyed (step x m).outbox
unfolding create_in_app_and_outbox_for_alert create_target_suspension_notification
step-IsKeyed (for_alert d a escalated) m h = produce-IsKeyed d a escalated a.user_id m h
step-IsKeyed (for_suspension d t) m h =
    let p = preference_of t.user_id m.preferences in
    suspension-IsKeyed d t p _ (
      if-cases (λ (v : Mailroom). IsKeyed v.outbox) (takes_in_app p)
        (notify t.user_id d.notice_uuid (if t.is_ssrf then critical else medium)
          target_status_changed none m)
        m (λ e. h) (λ e. h))

-- However often alerts and suspensions are notified, and in whichever order, no two outbox rows have one
-- idempotency key, if none had at first.
pub serve-IsKeyed :
    (xs : List Production) (m : Mailroom) → IsKeyed m.outbox → IsKeyed (serve xs m).outbox
serve-IsKeyed [] m h = h
serve-IsKeyed (x ∷ xs) m h = serve-IsKeyed xs (step x m) (step-IsKeyed x m h)
