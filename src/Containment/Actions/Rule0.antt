-- ===== src/Containment/Actions/Rule0.antt =====
-- Rule 0 on the blacklist: what an action may put there.
use ai_cyber_security_suite.Prelude.{
  ℕ, ◌+◌, ◌≡◌, refl, inl, inr, Bool, true, false, ◌&&◌, Option, none, some, List, find, keep,
  update, All, All-append, All-mono, All-update, Bool-cases,
}
use ai_cyber_security_suite.Containment.Model.{
  ActionType, blacklist_indicator, invalidate_cache, quarantine_target, create_incident,
  emit_soc_event, send_notification, ActionStatus, pending, executed, failed, blocked_by_allowlist,
  skipped, reverted, Action, BlacklistEntry, Target, Tables,
}
use ai_cyber_security_suite.Alerts.Model.{Alert}
use ai_cyber_security_suite.Containment.Allowlist.{Urls, is_whitelisted}
use ai_cyber_security_suite.Containment.Policies.{synthesized, policy_of, get_or_create_policy}
use ai_cyber_security_suite.Containment.Actions.{
  Request, has_key, Lookup, absent, several, one, one_or_none, extended, blacklist, is_meant,
  quarantine_found, incident_of, bind_incident, alert_of, perform_as, audited, fenced_type, perform,
  unless_done, execute_action,
}

-- No active entry is of an indicator on the allowlist.
abbrev pub Obeys : Urls → List BlacklistEntry → Type 0
Obeys u es = All (λ e. e.is_active ≡ true → is_whitelisted u e.indicator_value ≡ false) es

audited_blacklist :
    (r : Request) (uuid : ℕ) (s : ActionStatus) (t : Tables)
    → (audited r uuid s t).blacklist ≡ t.blacklist
audited_blacklist r uuid pending t = refl
audited_blacklist r uuid executed t = refl
audited_blacklist r uuid failed t = refl
audited_blacklist r uuid blocked_by_allowlist t = refl
audited_blacklist r uuid skipped t = refl
audited_blacklist r uuid reverted t = refl

pub synthesized_blacklist :
    (n : ℕ) (t : Tables) → (get_or_create_policy n t).0.blacklist ≡ t.blacklist
unfolding get_or_create_policy
synthesized_blacklist n t = go (policy_of n t)
  where
    go : (q : _) → (synthesized n t q).0.blacklist ≡ t.blacklist
    go (some p) = refl
    go none = refl

extend-Obeys :
    (u : Urls) (r : Request) (ttl : ℕ) (test : BlacklistEntry → Bool) (es : List BlacklistEntry)
    → Obeys u es
    → Obeys u (update test (extended r ttl) es)
extend-Obeys u r ttl test es h =
    All-update _ test (extended r ttl) es
      (All-mono _ _ (λ e k. elim (Bool-cases (test e)) [ inl y ↦ rw y k | inr n ↦ rw n k ]) es h)

blacklist-Obeys :
    (u : Urls) (r : Request) (ident ttl : ℕ) (t : Tables) (q : Lookup BlacklistEntry)
    → is_whitelisted u r.target_identifier ≡ false
    → Obeys u t.blacklist
    → Obeys u (blacklist r ident ttl t q).0.blacklist
blacklist-Obeys u r ident ttl t absent w h = All-append _ t.blacklist _ h ((λ _. w), tt)
blacklist-Obeys u r ident ttl t (one e) w h = extend-Obeys u r ttl _ t.blacklist h
blacklist-Obeys u r ident ttl t several w h = h

quarantine_keeps :
    (r : Request) (uuid : ℕ) (t : Tables) (q : Lookup Target)
    → (quarantine_found r uuid t q).0.blacklist ≡ t.blacklist
quarantine_keeps r uuid t absent = refl
quarantine_keeps r uuid t several = refl
quarantine_keeps r uuid t (one g) = elim (Bool-cases g.is_active) [
  | inl e ↦ rw e refl
  | inr e ↦ rw e refl
]

bind_keeps :
    (r : Request) (t : Tables) (a : Alert) (q : Option ℕ)
    → (bind_incident r t a q).0.blacklist ≡ t.blacklist
bind_keeps r t a (some n) = refl
bind_keeps r t a none = refl

incident_keeps :
    (r : Request) (t : Tables) (q : Option Alert) → (incident_of r t q).0.blacklist ≡ t.blacklist
incident_keeps r t none = refl
incident_keeps r t (some a) = bind_keeps r t a a.incident_id

perform-Obeys :
    (u : Urls) (r : Request) (ident uuid : ℕ) (ty : ActionType) (t : Tables)
    → fenced_type ty && is_whitelisted u r.target_identifier ≡ false
    → Obeys u t.blacklist
    → Obeys u (perform_as r ident uuid ty t).0.blacklist
perform-Obeys u r ident uuid blacklist_indicator t w h =
    blacklist-Obeys u r ident (get_or_create_policy r.tenant_id t).1.blacklist_ttl_seconds
      (get_or_create_policy r.tenant_id t).0 _ w (rw (synthesized_blacklist r.tenant_id t) h)
perform-Obeys u r ident uuid invalidate_cache t w h = h
perform-Obeys u r ident uuid quarantine_target t w h =
    rw (quarantine_keeps r uuid t (one_or_none (keep (is_meant r) t.targets))) h
perform-Obeys u r ident uuid create_incident t w h =
    rw (incident_keeps r t (alert_of r r.alert_id t)) h
perform-Obeys u r ident uuid emit_soc_event t w h = h
perform-Obeys u r ident uuid send_notification t w h = h

done-Obeys :
    (u : Urls) (r : Request) (t : Tables) (q : Option Action)
    → Obeys u t.blacklist
    → Obeys u (unless_done u r t q).0.blacklist
unfolding perform
done-Obeys u r t (some a) h = h
done-Obeys u r t none h =
    elim (Bool-cases (fenced_type r.action_type && is_whitelisted u r.target_identifier)) [
      | inl stop ↦ rw stop h
      | inr pass ↦ rw pass (
          rw
            (audited_blacklist r (t.next + 1)
              (perform_as r t.next (t.next + 1) r.action_type
                (record t { next = t.next + 2 })).1.status
              (perform_as r t.next (t.next + 1) r.action_type (record t { next = t.next + 2 })).0)
            (perform-Obeys u r t.next (t.next + 1) r.action_type (record t { next = t.next + 2 })
              pass h))
    ]

-- An action leaves no active entry of an allowlisted indicator on the blacklist, where there was none.
pub execute_action-Obeys :
    (u : Urls) (r : Request) (t : Tables)
    → Obeys u t.blacklist
    → Obeys u (execute_action u r t).0.blacklist
unfolding execute_action
execute_action-Obeys u r t h = done-Obeys u r t (find (has_key r) t.actions) h
