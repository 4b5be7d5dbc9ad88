-- ===== src/Containment/Playbooks/Evaluation.antt =====
-- evaluate_alert_containment, the hook that evaluates an alert, and evaluate_quarantine_eligibility.
use ai_cyber_security_suite.Prelude.{
  ℕ, ◌-◌, ◌*◌, Bool, true, false, not, ◌||◌, ◌&&◌, Option, none, some, List, if◌then◌else◌, leb,
  ◌==◌, sql_eq, keep, length,
}
use ai_cyber_security_suite.Broadcaster.Envelope.{Severity, high, critical}
use ai_cyber_security_suite.Alerts.Model.{open_, acknowledged, AlertStatus, Alert}
use ai_cyber_security_suite.Containment.Model.{
  Policy, PlaybookName, critical_threat_auto_containment, repeated_target_compromise_quarantine,
  PlaybookRun, Target, Tables,
}
use ai_cyber_security_suite.Containment.Allowlist.{Urls}
use ai_cyber_security_suite.Containment.Policies.{get_or_create_policy}
use ai_cyber_security_suite.Containment.Actions.{Lookup, absent, several, one, one_or_none}
use ai_cyber_security_suite.Containment.Playbooks.{RunRequest, execute_playbook}

abbrev pub is_open_or_acknowledged : AlertStatus → Bool
is_open_or_acknowledged open_ = true
is_open_or_acknowledged acknowledged = true
is_open_or_acknowledged _ = false

abbrev pub is_high_or_critical : Severity → Bool
is_high_or_critical high = true
is_high_or_critical critical = true
is_high_or_critical _ = false

abbrev pub counts_for : ℕ → Target → Alert → Bool
counts_for now g a =
    sql_eq a.user_id g.user_id
    && (is_open_or_acknowledged a.status
        && (is_high_or_critical a.severity
            && (leb (now - 10 * 60000000) a.first_seen_at
                && (a.indicator_value == g.url || a.indicator_value == g.normalized_domain))))

unfoldable pub evaluate_quarantine_eligibility : ℕ → Target → List Alert → Bool
evaluate_quarantine_eligibility now g alerts =
    g.is_active && leb 3 (length (keep (counts_for now g) alerts))

abbrev pub is_critical : Severity → Bool
is_critical critical = true
is_critical _ = false

-- The minimum severity of the policy; one that is neither CRITICAL nor HIGH lets every alert through.
abbrev pub severe_enough : Severity → Severity → Bool
severe_enough critical s = is_critical s
severe_enough high s = is_high_or_critical s
severe_enough _ s = true

abbrev pub watches : Alert → ℕ → Target → Bool
watches a user g =
    g.user_id == user && (g.url == a.indicator_value || g.normalized_domain == a.indicator_value)

-- The texts of the incidents, by the playbook's reason and the identifier, and the answer of Redis.
pub record Texts : Type 0 where
  pub incident_title : ℕ → ℕ
  pub incident_text : PlaybookName → ℕ → ℕ
  pub redis_tokens : Option ℕ

abbrev pub playbook_request : Texts → ℕ → ℕ → Alert → PlaybookName → ℕ → Option ℕ → RunRequest
playbook_request x now user a name identifier target = record {
  now = now;
  playbook_name = name;
  tenant_id = user;
  target_identifier = identifier;
  alert_id = some a.ident;
  target_id = target;
  actor_user_id = none;
  incident_title = x.incident_title;
  incident_text = x.incident_text name identifier;
  redis_tokens = x.redis_tokens;
}

-- What the hook asks for; `raised` is the exception of a query that finds several targets.
pub data Decision : Type 0 where
  no_playbook raised : Decision
  run_playbook : RunRequest → Decision

abbrev pub blacklisting : Texts → ℕ → ℕ → Policy → Alert → Decision
blacklisting x now user p a =
    if p.auto_blacklist_enabled
    then run_playbook
        (playbook_request x now user a critical_threat_auto_containment a.indicator_value none)
    else no_playbook

abbrev pub quarantining : Texts → ℕ → ℕ → Policy → Alert → List Alert → Lookup Target → Decision
quarantining x now user p a alerts absent = blacklisting x now user p a
quarantining x now user p a alerts several = raised
quarantining x now user p a alerts (one g) =
    if evaluate_quarantine_eligibility now g alerts
    then run_playbook (
        playbook_request x now user a repeated_target_compromise_quarantine g.target_uuid
          (some g.ident))
    else blacklisting x now user p a

-- Steps 1 to 4 behind the policy's look-up.
unfoldable pub decide : Texts → ℕ → ℕ → Policy → Alert → Tables → Decision
unfolding evaluate_quarantine_eligibility
decide x now user p a t =
    if not p.auto_containment_enabled
    then no_playbook
    else if not (severe_enough p.containment_min_severity a.severity)
    then no_playbook
    else if p.auto_quarantine_enabled
    then quarantining x now user p a t.soc.alerts (one_or_none (keep (watches a user) t.targets))
    else blacklisting x now user p a

abbrev pub carry_out : Urls → Tables → Decision → Tables × Option PlaybookRun
carry_out u t no_playbook = (t, none)
carry_out u t raised = (t, none)
carry_out u t (run_playbook q) = execute_playbook u q t

abbrev pub evaluate_for : Urls → Texts → ℕ → Alert → Tables → Option ℕ → Tables × Option PlaybookRun
evaluate_for u x now a t none = (t, none)
evaluate_for u x now a t (some user) =
    let r = get_or_create_policy user t in carry_out u r.0 (decide x now user r.1 a r.0)

unfoldable pub evaluate_alert_containment :
    Urls → Texts → ℕ → Alert → Tables → Tables × Option PlaybookRun
unfolding execute_playbook decide get_or_create_policy
evaluate_alert_containment u x now a t = evaluate_for u x now a t a.user_id
