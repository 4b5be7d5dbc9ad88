-- ===== src/Containment/Actions/Identity.antt =====
-- The idempotency key of an action: what a repeated call does.
use ai_cyber_security_suite.Prelude.{
  ℕ, ◌+◌, ◌≡◌, refl, ap, ◌∙◌, inl, inr, Bool, true, ◌&&◌, Option, none, some, List, [], ◌∷◌, ◌++◌,
  ==_iff, find, keep, Bool-cases, some-ne-none,
}
use ai_cyber_security_suite.Alerts.Model.{Alert}
use ai_cyber_security_suite.Containment.Model.{
  ActionType, blacklist_indicator, invalidate_cache, quarantine_target, create_incident,
  emit_soc_event, send_notification, ActionStatus, pending, executed, failed, blocked_by_allowlist,
  skipped, reverted, Action, BlacklistEntry, Policy, Target, Tables,
}
use ai_cyber_security_suite.Containment.Allowlist.{Urls, is_whitelisted}
use ai_cyber_security_suite.Containment.Policies.{synthesized, policy_of, get_or_create_policy}
use ai_cyber_security_suite.Containment.Actions.{
  Request, same_alert, same_type, has_key, Outcome, Lookup, absent, several, one, one_or_none,
  listed, blacklist, is_meant, quarantine_found, incident_of, bind_incident, alert_of, perform_as,
  audited, fenced_type, perform, action_row, unless_done, execute_action,
}

-- The action and run rows are the same.
abbrev pub Frames : Tables → Tables → Type 0
Frames t v = (v.actions ≡ t.actions) × (v.runs ≡ t.runs)

audited-Frames :
    (r : Request) (uuid : ℕ) (s : ActionStatus) (t : Tables) → Frames t (audited r uuid s t)
audited-Frames r uuid pending t = (refl, refl)
audited-Frames r uuid executed t = (refl, refl)
audited-Frames r uuid failed t = (refl, refl)
audited-Frames r uuid blocked_by_allowlist t = (refl, refl)
audited-Frames r uuid skipped t = (refl, refl)
audited-Frames r uuid reverted t = (refl, refl)

synthesized-Frames : (n : ℕ) (t : Tables) (q : Option Policy) → Frames t (synthesized n t q).0
synthesized-Frames n t (some p) = (refl, refl)
synthesized-Frames n t none = (refl, refl)

pub policy-Frames : (n : ℕ) (t : Tables) → Frames t (get_or_create_policy n t).0
unfolding get_or_create_policy
policy-Frames n t = synthesized-Frames n t (policy_of n t)

blacklist-Frames :
    (r : Request) (ident ttl : ℕ) (t : Tables) (q : Lookup BlacklistEntry)
    → Frames t (blacklist r ident ttl t q).0
blacklist-Frames r ident ttl t absent = (refl, refl)
blacklist-Frames r ident ttl t (one e) = (refl, refl)
blacklist-Frames r ident ttl t several = (refl, refl)

quarantine-Frames :
    (r : Request) (uuid : ℕ) (t : Tables) (q : Lookup Target)
    → Frames t (quarantine_found r uuid t q).0
quarantine-Frames r uuid t absent = (refl, refl)
quarantine-Frames r uuid t several = (refl, refl)
quarantine-Frames r uuid t (one g) = elim (Bool-cases g.is_active) [
  | inl e ↦ rw e (refl, refl)
  | inr e ↦ rw e (refl, refl)
]

incident-Frames : (r : Request) (t : Tables) (q : Option Alert) → Frames t (incident_of r t q).0
incident-Frames r t none = (refl, refl)
incident-Frames r t (some a) = go a.incident_id
  where
    go : (q : Option ℕ) → Frames t (bind_incident r t a q).0
    go (some n) = (refl, refl)
    go none = (refl, refl)

as-Frames :
    (r : Request) (ident uuid : ℕ) (ty : ActionType) (t : Tables)
    → Frames t (perform_as r ident uuid ty t).0
as-Frames r ident uuid blacklist_indicator t =
    let p = get_or_create_policy r.tenant_id t in
    let e = policy-Frames r.tenant_id t in
    let f =
      blacklist-Frames r ident p.1.blacklist_ttl_seconds p.0
        (one_or_none (keep (listed r) p.0.blacklist)) in
    (f.0 ∙ e.0, f.1 ∙ e.1)
as-Frames r ident uuid invalidate_cache t = (refl, refl)
as-Frames r ident uuid quarantine_target t =
    quarantine-Frames r uuid t (one_or_none (keep (is_meant r) t.targets))
as-Frames r ident uuid create_incident t = incident-Frames r t (alert_of r r.alert_id t)
as-Frames r ident uuid emit_soc_event t = (refl, refl)
as-Frames r ident uuid send_notification t = (refl, refl)

pub perform-Frames :
    (u : Urls) (r : Request) (ident uuid : ℕ) (t : Tables) → Frames t (perform u r ident uuid t).0
unfolding perform
perform-Frames u r ident uuid t =
    elim (Bool-cases (fenced_type r.action_type && is_whitelisted u r.target_identifier)) [
      | inl stop ↦ rw stop (refl, refl)
      | inr pass ↦
          let p = perform_as r ident uuid r.action_type t in
          let e = as-Frames r ident uuid r.action_type t in
          let f = audited-Frames r uuid p.1.status p.0 in rw pass (f.0 ∙ e.0, f.1 ∙ e.1)
    ]

pub same_alert_self : (a : Option ℕ) → same_alert a a ≡ true
same_alert_self none = refl
same_alert_self (some n) = (==_iff n n).1 refl

same_type_self : (ty : ActionType) → same_type ty ty ≡ true
same_type_self blacklist_indicator = refl
same_type_self invalidate_cache = refl
same_type_self quarantine_target = refl
same_type_self create_incident = refl
same_type_self emit_soc_event = refl
same_type_self send_notification = refl

own_key :
    (r : Request) (ident uuid : ℕ) (o : Outcome) → has_key r (action_row r ident uuid o) ≡ true
own_key r ident uuid o =
    rw
      (
        (==_iff r.tenant_id r.tenant_id).1 refl,
        same_alert_self r.alert_id,
        same_type_self r.action_type,
        (==_iff r.target_identifier r.target_identifier).1 refl,
      )
      refl

pub find-snoc {ℓ} :
    {A : Type ℓ} (test : A → Bool) (xs : List A) (x : A)
    → find test xs ≡ none
    → test x ≡ true
    → find test (xs ++ x ∷ []) ≡ some x
find-snoc test [] x h y = rw y refl
find-snoc test (z ∷ xs) x h y = elim (Bool-cases (test z)) [
  | inl e ↦ absurd (some-ne-none z (rw e at h))
  | inr e ↦ rw e (find-snoc test xs x (rw e at h) y)
]

-- After a call, the first action of its key is the one that it answered with.
recorded_key :
    (u : Urls) (r : Request) (t : Tables) (q : Option Action)
    → find (has_key r) t.actions ≡ q
    → find (has_key r) (unless_done u r t q).0.actions ≡ some (unless_done u r t q).1
recorded_key u r t (some a) h = h
recorded_key u r t none h =
    let p = perform u r t.next (t.next + 1) (record t { next = t.next + 2 }) in
    let same : p.0.actions ≡ t.actions =
      (perform-Frames u r t.next (t.next + 1) (record t { next = t.next + 2 })).0 in
    rw same (find-snoc (has_key r) t.actions _ h (own_key r t.next (t.next + 1) p.1))

-- A call that repeats another one's tenant, alert, type and target, at any later time, in another run or
-- by another user, leaves all tables as they are and answers with the action of the first call.
pub execute_action_again :
    (u : Urls) (r q : Request) (t : Tables)
    → q.tenant_id ≡ r.tenant_id
    → q.alert_id ≡ r.alert_id
    → q.action_type ≡ r.action_type
    → q.target_identifier ≡ r.target_identifier
    → let first = execute_action u r t in execute_action u q first.0 ≡ (first.0, first.1)
unfolding execute_action
execute_action_again u r q t e f g h =
    let first = unless_done u r t (find (has_key r) t.actions) in
    let alike : has_key q ≡ has_key r = rw (e, f, g, h) refl in
    let found : find (has_key q) first.0.actions ≡ some first.1 =
      rw alike (recorded_key u r t (find (has_key r) t.actions) refl) in
    ap (unless_done u q first.0) found
