-- ===== src/Alerts/Triage/History.antt =====
-- Sequences of triage requests.
use mathlib.Core.List.{append_assoc, append-nil}
use ai_cyber_security_suite.Prelude.{
  ℕ, ◌+◌, ◌≡◌, sym, ap, ◌∙◌, inl, inr, List, [], ◌∷◌, ◌++◌, ◌==◌, length, length-append, All,
  Distinct, Distinct-update, arith,
}
use ai_cyber_security_suite.Alerts.Model.{SocEvent, Store, Request, Result, ok, err}
use ai_cyber_security_suite.Alerts.Triage.{lock_and_get_alert, Operation, triage}
use ai_cyber_security_suite.Alerts.Triage.Transition.{Answer, triage-Answer}
use ai_cyber_security_suite.Alerts.Triage.Rows.{assign}
use ai_cyber_security_suite.Alerts.Triage.Audit.{
  IsAudited, Change-IsAudited, assign-ident, assign-alert_uuid,
}

-- Requests, each in its own transaction: a failure leaves the tables as they are.
abbrev pub settled : Store → Result → Store
settled s (ok t a) = t
settled s (err e) = s

pub record Call : Type 0 where
  pub request : Request
  pub uuid : ℕ
  pub operation : Operation

unfoldable pub serve : (List ℕ → List ℕ) → Store → List Call → Store
serve strip s [] = s
serve strip s (c ∷ cs) = serve strip (settled s (triage strip c.request c.uuid c.operation s)) cs

-- The ids and the uuids of the alerts are keys, and the audit trail tells the status of every alert.
abbrev pub IsTracked : Store → Type 0
IsTracked s =
    (Distinct (λ a. a.ident) s.alerts × Distinct (λ a. a.alert_uuid) s.alerts)
    × All (IsAudited s.audit_events) s.alerts

-- The tables grew by the events that were published, and by as many audit events.
abbrev pub Streams : Store → Store → Type 0
Streams s t =
    (told : List SocEvent) × ((t.soc_events ≡ s.soc_events ++ told)
      × (t.published ≡ s.published ++ told)
      × (length t.audit_events ≡ length s.audit_events + length told))

Streams-self : (s : Store) → Streams s s
Streams-self s = ([], (sym (append-nil _), sym (append-nil _), omega arith))

Streams-then : (s t u : Store) → Streams s t → Streams t u → Streams s u
Streams-then s t u (xs, (a, b, c)) (ys, (d, e, f)) = (
  xs ++ ys,
  (
    d ∙ (ap (λ z. z ++ ys) a ∙ append_assoc _ xs ys),
    e ∙ (ap (λ z. z ++ ys) b ∙ append_assoc _ xs ys),
    omega (arith, c, f, length-append xs ys),
  ),
)

module _ (strip : List ℕ → List ℕ) where
  result-IsTracked :
      (s : Store) (c : Call) (q : Result)
      → Answer strip c.request c.uuid c.operation s q
      → IsTracked s
      → IsTracked (settled s q)
  unfolding lock_and_get_alert
  result-IsTracked s c (err e) h i = i
  result-IsTracked s c (ok t b) (short, (a, found, ways)) ((ids, uuids), all) = elim ways [
    | inl (st, same, it) ↦ rw same ((ids, uuids), all)
    | inr (_, it, ch) ↦ (
      rw ch.rows (
        Distinct-update _ (λ x. x.ident == a.ident) (assign strip c.request.now c.operation)
            (assign-ident strip c.request.now c.operation) s.alerts ids,
        Distinct-update _ (λ x. x.ident == a.ident) (assign strip c.request.now c.operation)
            (assign-alert_uuid strip c.request.now c.operation) s.alerts uuids,
      ),
      Change-IsAudited strip c.request c.operation _ a s t found ids uuids ch all,
    )
  ]

  -- Over any sequence of triage requests by any users, the audit trail stays a lawful history of
  -- every alert, where the ids and the uuids are keys: if replaying its events on each alert from
  -- the open status gives the status of the alert, it does so afterwards.
  pub serve-IsTracked : (s : Store) (cs : List Call) → IsTracked s → IsTracked (serve strip s cs)
  unfolding serve
  serve-IsTracked s [] i = i
  serve-IsTracked s (c ∷ cs) i =
      serve-IsTracked (settled s (triage strip c.request c.uuid c.operation s)) cs
        (result-IsTracked s c _ (triage-Answer strip c.request c.uuid s c.operation) i)

  settled-Streams :
      (s : Store) (c : Call) (q : Result)
      → Answer strip c.request c.uuid c.operation s q
      → Streams s (settled s q)
  settled-Streams s c (err e) h = Streams-self s
  settled-Streams s c (ok t b) (short, (a, found, ways)) = elim ways [
    | inl (st, same, it) ↦ rw same (Streams-self s)
    | inr (_, it, ch) ↦
        (ch.told ∷ [], (ch.streamed, ch.published, rw ch.audited (length-append _ _)))
  ]

  -- Over any sequence of triage requests, the events published are the events stored, in the same order,
  -- and one audit event is written for each of them.
  pub serve-Streams : (s : Store) (cs : List Call) → Streams s (serve strip s cs)
  unfolding serve
  serve-Streams s [] = Streams-self s
  serve-Streams s (c ∷ cs) =
      let t = settled s (triage strip c.request c.uuid c.operation s) in
      Streams-then s t (serve strip t cs)
        (settled-Streams s c _ (triage-Answer strip c.request c.uuid s c.operation))
        (serve-Streams t cs)
