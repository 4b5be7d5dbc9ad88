-- ===== src/Containment/Examples.antt =====
-- One tenant with two targets and three alerts on the first.
use ai_cyber_security_suite.Prelude.{
  ℕ, ◌+◌, ◌≡◌, refl, Bool, true, false, none, some, List, [], ◌∷◌, ◌==◌, if◌then◌else◌,
}
use ai_cyber_security_suite.Broadcaster.Envelope.{high, critical}
use ai_cyber_security_suite.Alerts.Model.{open_, Alert, User}
use ai_cyber_security_suite.Containment.Model.{
  ActionType, blacklist_indicator, quarantine_target, Policy, critical_threat_auto_containment,
  Target, Tables,
}
use ai_cyber_security_suite.Containment.Allowlist.{Urls, codes}
use ai_cyber_security_suite.Containment.Policies.{PolicyUpdate, update_policy, default_policy}
use ai_cyber_security_suite.Containment.Actions.{Request, execute_action}
use ai_cyber_security_suite.Containment.Actions.Rule0.{Obeys}
use ai_cyber_security_suite.Containment.Playbooks.{RunRequest, new_run, execute_playbook}
use ai_cyber_security_suite.Containment.Playbooks.Evaluation.{Texts, decide}
use ai_cyber_security_suite.Containment.Playbooks.Runs.{Played, execute_playbook-Played}
use ai_cyber_security_suite.Containment.Playbooks.Decisions.{Justified, decide-Justified}
use ai_cyber_security_suite.Containment.Rollback.{revert_action}
use ai_cyber_security_suite.Containment.Rollback.Provenance.{Reversal, revert_action-Reversal}
use ai_cyber_security_suite.Containment.Boundary.{
  act, run, evaluate, revert, configure, Operation, serve, serve-Obeys,
}

-- Indicator 5 stands for https://mail.google.com/, any other one for https://evil.xyz/.
abbrev urls : Urls
urls = record {
  is_empty = λ n. n == 0;
  hostname = λ n. some (if n == 5 then codes "mail.google.com" else codes "evil.xyz");
}

abbrev user : User
user = record { ident = 7; is_admin = false }

abbrev target : ℕ → Bool → Target
target n live = record {
  ident = n;
  target_uuid = n + 100;
  url = n + 200;
  normalized_domain = n + 300;
  user_id = 7;
  is_active = live;
  last_error_message = none;
}

abbrev alert : ℕ → Alert
alert n = record {
  ident = n;
  alert_uuid = n + 400;
  title = 1;
  severity = critical;
  status = open_;
  rule_name = 3;
  indicator_type = 4;
  indicator_value = 201;
  fingerprint = none;
  occurrence_count = 1;
  first_seen_at = 600000000;
  last_seen_at = 600000000;
  acknowledged_at = none;
  resolved_at = none;
  dismissed_at = none;
  dismiss_reason = none;
  triage_notes = none;
  user_id = some 7;
  incident_id = none;
}

abbrev policy : Policy
policy = record (default_policy 7) {
  auto_containment_enabled = true;
  auto_blacklist_enabled = true;
  auto_quarantine_enabled = true;
}

abbrev tables : Tables
tables = record {
  policies = policy ∷ [];
  runs = [];
  actions = [];
  blacklist = [];
  targets = target 1 true ∷ target 2 true ∷ [];
  soc = record { incidents = []; alerts = alert 1 ∷ alert 2 ∷ alert 3 ∷ []; audits = [] };
  events = [];
  audits = [];
  next = 1000;
}

abbrev request : ActionType → ℕ → ℕ → Request
request ty identifier now = record {
  now = now;
  action_type = ty;
  target_identifier = identifier;
  tenant_id = 7;
  alert_id = some 1;
  run_id = none;
  actor_user_id = some 7;
  incident_title = λ n. n;
  incident_text = 2;
}

abbrev play_request : RunRequest
play_request = record {
  now = 600000001;
  playbook_name = critical_threat_auto_containment;
  tenant_id = 7;
  target_identifier = 201;
  alert_id = some 1;
  target_id = none;
  actor_user_id = none;
  incident_title = λ n. n;
  incident_text = 2;
  redis_tokens = none;
}

abbrev texts : Texts
texts = record { incident_title = λ n. n; incident_text = λ p n. n; redis_tokens = some 4 }

revert_action-Reversal_example :
    let done = execute_action urls (request quarantine_target 101 600000001) tables in
    Reversal 600000002 user 1001 done.0 (revert_action 600000002 user 1001 done.0)
revert_action-Reversal_example =
    revert_action-Reversal 600000002 user 1001
      (execute_action urls (request quarantine_target 101 600000001) tables).0

-- A run of another tenant is running.
abbrev shared : Tables
shared = record tables { runs = new_run (record play_request { tenant_id = 8 }) 900 ∷ [] }

execute_playbook-Played_example :
    Played play_request shared (execute_playbook urls play_request shared)
execute_playbook-Played_example = execute_playbook-Played urls play_request shared (refl, tt)

decide-Justified_example :
    Justified 600000001 7 policy (alert 3) tables (decide texts 600000001 7 policy (alert 3) tables)
decide-Justified_example = decide-Justified texts 600000001 7 policy (alert 3) tables

abbrev change : Bool → PolicyUpdate
change auto = record {
  auto_containment_enabled = auto;
  auto_blacklist_enabled = true;
  auto_quarantine_enabled = false;
  auto_incident_binding_enabled = false;
  containment_min_severity = high;
  blacklist_ttl_seconds = 3600;
  policy_version = 1;
}

accepted : (update_policy 7 (change false) 7 tables).1 ≡ true
unfolding update_policy
accepted = refl

abbrev session : List Operation
session =
    act (request blacklist_indicator 5 600000001)
    ∷ run play_request
    ∷ evaluate texts 600000001 (alert 3)
    ∷ revert 600000002 user 1001
    ∷ configure 7 (change true) 7
    ∷ []

serve-Obeys_example : Obeys urls (serve urls session tables).blacklist
serve-Obeys_example = serve-Obeys urls session tables tt
