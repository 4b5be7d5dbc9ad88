-- ===== src/Containment/Playbooks/Decisions.antt =====
-- When the evaluation of an alert runs a playbook, and on what.
use ai_cyber_security_suite.Prelude.{
  ℕ, ◌≤◌, ◌≡◌, ◌⊎◌, refl, inl, inr, Bool, true, false, not, ◌&&◌, some, List, [], ◌∷◌, leb, leb→le,
  keep, length, Bool-cases, if-cases, arith,
}
use ai_cyber_security_suite.Alerts.Model.{Alert}
use ai_cyber_security_suite.Containment.Model.{
  Policy, critical_threat_auto_containment, repeated_target_compromise_quarantine, Target, Tables,
}
use ai_cyber_security_suite.Containment.Actions.{one_or_none}
use ai_cyber_security_suite.Containment.Playbooks.{RunRequest}
use ai_cyber_security_suite.Containment.Playbooks.Evaluation.{
  counts_for, evaluate_quarantine_eligibility, severe_enough, watches, Texts, Decision, no_playbook,
  raised, run_playbook, blacklisting, quarantining, decide,
}

-- Why a playbook is run for an alert, and on what.
abbrev pub Blacklists : Policy → Alert → RunRequest → Type 0
Blacklists p a q =
    (p.auto_blacklist_enabled ≡ true)
    × (q.playbook_name ≡ critical_threat_auto_containment)
    × (q.target_identifier ≡ a.indicator_value)

abbrev pub Quarantines : ℕ → ℕ → Policy → Alert → Tables → RunRequest → Type 0
Quarantines now user p a t q =
    (g : Target) × (p.auto_quarantine_enabled ≡ true)
    × (keep (watches a user) t.targets ≡ g ∷ [])
    × (g.is_active ≡ true)
    × (3 ≤ length (keep (counts_for now g) t.soc.alerts))
    × (q.playbook_name ≡ repeated_target_compromise_quarantine)
    × (q.target_identifier ≡ g.target_uuid)

abbrev pub Justified : ℕ → ℕ → Policy → Alert → Tables → Decision → Type 0
Justified now user p a t (run_playbook q) =
    (p.auto_containment_enabled ≡ true)
    × (severe_enough p.containment_min_severity a.severity ≡ true)
    × (q.tenant_id ≡ user)
    × (q.alert_id ≡ some a.ident)
    × (Quarantines now user p a t q ⊎ Blacklists p a q)
Justified now user p a t raised =
    (p.auto_quarantine_enabled ≡ true) × (2 ≤ length (keep (watches a user) t.targets))
Justified now user p a t no_playbook =
    (p.auto_containment_enabled ≡ false)
    ⊎ ((severe_enough p.containment_min_severity a.severity ≡ false)
        ⊎ (p.auto_blacklist_enabled ≡ false))

blacklisting_lem :
    (x : Texts) (now user : ℕ) (p : Policy) (a : Alert) (t : Tables)
    → p.auto_containment_enabled ≡ true
    → severe_enough p.containment_min_severity a.severity ≡ true
    → Justified now user p a t (blacklisting x now user p a)
blacklisting_lem x now user p a t e s =
    if-cases (Justified now user p a t) p.auto_blacklist_enabled _ _
      (λ y. (e, s, refl, refl, inr (y, refl, refl))) (λ n. inr (inr n))

not-true : (b : Bool) → not b ≡ true → b ≡ false
not-true b h = ground arith

not-false : (b : Bool) → not b ≡ false → b ≡ true
not-false b h = ground arith

and_split : (a b : Bool) → a && b ≡ true → (a ≡ true) × (b ≡ true)
and_split a b h = ground arith

quarantining_lem :
    (x : Texts) (now user : ℕ) (p : Policy) (a : Alert) (t : Tables) (gs : List Target)
    → p.auto_containment_enabled ≡ true
    → severe_enough p.containment_min_severity a.severity ≡ true
    → p.auto_quarantine_enabled ≡ true
    → keep (watches a user) t.targets ≡ gs
    → Justified now user p a t (quarantining x now user p a t.soc.alerts (one_or_none gs))
unfolding evaluate_quarantine_eligibility
quarantining_lem x now user p a t [] e s y found = blacklisting_lem x now user p a t e s
quarantining_lem x now user p a t (g ∷ h ∷ gs) e s y found = (y, rw found (omega arith))
quarantining_lem x now user p a t (g ∷ []) e s y found =
    let meets = leb 3 (length (keep (counts_for now g) t.soc.alerts)) in
    elim (Bool-cases (g.is_active && meets)) [
      | inr no_way ↦ rw no_way (blacklisting_lem x now user p a t e s)
      | inl due ↦
          let (live, many) = and_split g.is_active meets due in
          rw due (e, s, refl, refl, inl (g, y, found, live, leb→le 3 _ many, refl, refl))
    ]

-- An alert makes a playbook run only where the tenant's policy enables containment and the alert is as
-- severe as it asks for: on a target, by its uuid, where the policy enables quarantines, the alert names
-- this one target of the tenant, it is active and has three or more current alerts of high severity; or
-- on the alert's indicator, where the policy enables the blacklist. None is run where one of these is
-- missing, and the query raises only where the alert names several targets.
pub decide-Justified :
    (x : Texts) (now user : ℕ) (p : Policy) (a : Alert) (t : Tables)
    → Justified now user p a t (decide x now user p a t)
unfolding decide
decide-Justified x now user p a t =
    if-cases (Justified now user p a t) (not p.auto_containment_enabled) _ _
      (λ off. inl (not-true _ off))
      (λ on.
        if-cases (Justified now user p a t)
          (not (severe_enough p.containment_min_severity a.severity)) _ _
          (λ weak. inr (inl (not-true _ weak)))
          (λ strong.
            let e = not-false _ on in
            let s = not-false _ strong in
            if-cases (Justified now user p a t) p.auto_quarantine_enabled _ _
              (λ y. quarantining_lem x now user p a t _ e s y refl)
              (λ n. blacklisting_lem x now user p a t e s)))
