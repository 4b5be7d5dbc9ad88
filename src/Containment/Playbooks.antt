-- ===== src/Containment/Playbooks.antt =====
-- The concurrency limit and playbook runs. The semaphore in Redis, which is tried first, is its answer:
-- how many tokens of the tenant are younger than 60 seconds.
pub mod Runs
pub mod Evaluation
pub mod Decisions
use ai_cyber_security_suite.Prelude.{
  ℕ, ◌+◌, ◌-◌, ◌*◌, Bool, true, false, not, ◌||◌, ◌&&◌, Option, none, some, List, [], ◌∷◌, ◌++◌,
  if◌then◌else◌, leb, ltb, ◌==◌, sql_eq, any, find, keep, length, update,
}
use ai_cyber_security_suite.Broadcaster.Envelope.{Severity, high, critical}
use ai_cyber_security_suite.Alerts.Model.{open_, acknowledged, AlertStatus, Alert}
use ai_cyber_security_suite.Containment.Model.{
  ActionType, blacklist_indicator, invalidate_cache, quarantine_target, create_incident,
  emit_soc_event, send_notification, failed, Action, ActionStatus, Policy, PlaybookName,
  critical_threat_auto_containment, repeated_target_compromise_quarantine, manual_containment,
  other_playbook, PlaybookRun, RunStatus, Target, of_uuid, SocEvent, EventType, playbook_triggered,
  playbook_completed, playbook_failed, Tables,
}
use ai_cyber_security_suite.Containment.Allowlist.{Urls}
use ai_cyber_security_suite.Containment.Policies.{get_or_create_policy}
use ai_cyber_security_suite.Containment.Actions.{
  Request, same_alert, Lookup, absent, several, one, one_or_none, fenced_type, execute_action,
}

abbrev pub max_concurrent_playbooks_per_tenant : ℕ
max_concurrent_playbooks_per_tenant = 5

abbrev pub is_running : RunStatus → Bool
is_running RunStatus.running = true
is_running _ = false

abbrev pub running_of : ℕ → List PlaybookRun → ℕ
running_of tenant runs = length (keep (λ x. x.tenant_id == tenant && is_running x.status) runs)

abbrev pub same_playbook : PlaybookName → PlaybookName → Bool
same_playbook critical_threat_auto_containment critical_threat_auto_containment = true
same_playbook repeated_target_compromise_quarantine repeated_target_compromise_quarantine = true
same_playbook manual_containment manual_containment = true
same_playbook (other_playbook m) (other_playbook n) = m == n
same_playbook _ _ = false

-- The arguments of execute_playbook, and the tokens that Redis counts before the run; none where there
-- is no client or a call of it fails.
pub record RunRequest : Type 0 where
  pub now : ℕ
  pub playbook_name : PlaybookName
  pub tenant_id : ℕ
  pub target_identifier : ℕ
  pub alert_id : Option ℕ
  pub target_id : Option ℕ
  pub actor_user_id : Option ℕ
  pub incident_title : ℕ → ℕ
  pub incident_text : ℕ
  pub redis_tokens : Option ℕ

abbrev pub has_run_key : RunRequest → PlaybookRun → Bool
has_run_key q x =
    x.tenant_id == q.tenant_id
    && (same_alert x.alert_id q.alert_id && same_playbook x.playbook_name q.playbook_name)

abbrev pub new_run : RunRequest → ℕ → PlaybookRun
new_run q n = record {
  ident = n;
  run_uuid = n + 1;
  playbook_name = q.playbook_name;
  tenant_id = q.tenant_id;
  alert_id = q.alert_id;
  target_id = q.target_id;
  status = RunStatus.running;
  fencing_token = 1;
  action_count = 0;
  started_at = q.now;
  completed_at = none;
}

abbrev pub action_sequence : PlaybookName → Option (List ActionType)
action_sequence critical_threat_auto_containment = some (
    blacklist_indicator ∷ invalidate_cache ∷ create_incident ∷ emit_soc_event ∷ send_notification
    ∷ [])
action_sequence repeated_target_compromise_quarantine =
    some (quarantine_target ∷ create_incident ∷ emit_soc_event ∷ send_notification ∷ [])
action_sequence manual_containment = some (blacklist_indicator ∷ [])
action_sequence (other_playbook n) = none

abbrev pub request_of : RunRequest → ℕ → ActionType → Request
request_of q run ty = record {
  now = q.now;
  action_type = ty;
  target_identifier = q.target_identifier;
  tenant_id = q.tenant_id;
  alert_id = q.alert_id;
  run_id = some run;
  actor_user_id = q.actor_user_id;
  incident_title = q.incident_title;
  incident_text = q.incident_text;
}

abbrev pub is_failed : ActionStatus → Bool
is_failed ActionStatus.failed = true
is_failed _ = false

-- How the loop over the actions ends, with the number of completed ones.
pub data LoopEnd : Type 0 where
  ran_all broke fenced_off : ℕ → LoopEnd

-- The fencing query of the loop.
abbrev pub holds_run : PlaybookRun → Tables → Bool
holds_run run t =
    any (λ x. x.ident == run.ident && (x.fencing_token == run.fencing_token && is_running x.status))
      t.runs

unfoldable pub run_actions :
    Urls → RunRequest → PlaybookRun → ℕ → List ActionType → Tables → Tables × LoopEnd
run_actions u q run k [] t = (t, ran_all k)
run_actions u q run k (ty ∷ tys) t =
    let r = execute_action u (request_of q run.ident ty) t in
    let rest = run_actions u q run (k + 1) tys r.0 in
    if fenced_type ty && not (holds_run run t)
    then (t, fenced_off k)
    else if is_failed r.1.status
    then (r.0, broke (k + 1))
    else rest

abbrev pub close_run : ℕ → ℕ → RunStatus → PlaybookRun → PlaybookRun
close_run now k st run = record run { status = st; action_count = k; completed_at = some now }

abbrev pub run_event : RunRequest → PlaybookRun → EventType → ℕ → SocEvent
run_event q run ty n = record {
  event_id = n;
  tenant_id = q.tenant_id;
  event_type = ty;
  aggregate_id = of_uuid run.run_uuid;
}

abbrev pub emitted : RunRequest → PlaybookRun → EventType → Tables → Tables
emitted q run ty t = record t {
  events = t.events ++ run_event q run ty t.next ∷ [];
  next = t.next + 1;
}

abbrev pub save_run : PlaybookRun → Tables → Tables
save_run run t = record t { runs = update (λ x. x.ident == run.ident) (λ _. run) t.runs }

-- The end of a run; a fenced one has no event and keeps its count of 0.
abbrev pub conclude : RunRequest → PlaybookRun → Tables → LoopEnd → Tables × PlaybookRun
conclude q run t (ran_all k) =
    let x = close_run q.now k RunStatus.completed run in
    (emitted q run playbook_completed (save_run x t), x)
conclude q run t (broke k) =
    let x = close_run q.now k RunStatus.failed run in
    (emitted q run playbook_failed (save_run x t), x)
conclude q run t (fenced_off k) =
    let x = close_run q.now 0 RunStatus.failed run in (save_run x t, x)

abbrev pub play :
    Urls → RunRequest → PlaybookRun → Tables → Option (List ActionType) → Tables × PlaybookRun
play u q run t none = let x = close_run q.now 0 RunStatus.failed run in (save_run x t, x)
play u q run t (some tys) = let r = run_actions u q run 0 tys t in conclude q run r.0 r.1

-- The run is inserted as RUNNING, and its first event with it.
abbrev pub started : Urls → RunRequest → Tables → Tables × PlaybookRun
started u q t =
    let run = new_run q t.next in
    let inserted = record t { runs = t.runs ++ run ∷ []; next = t.next + 2 } in
    play u q run (emitted q run playbook_triggered inserted) (action_sequence q.playbook_name)

-- Whether a lease is granted, and the tables then: Redis decides by its tokens, and without Redis the
-- database does by the runs that are RUNNING, once the policy of the tenant exists.
abbrev pub acquire_tenant_concurrency_lease : Option ℕ → ℕ → Tables → Tables × Bool
acquire_tenant_concurrency_lease (some tokens) tenant t =
    (t, not (leb max_concurrent_playbooks_per_tenant tokens))
acquire_tenant_concurrency_lease none tenant t =
    let t1 = (get_or_create_policy tenant t).0 in
    (t1, not (leb max_concurrent_playbooks_per_tenant (running_of tenant t1.runs)))

-- none is the 429 of the concurrency limit; nothing is committed then.
abbrev pub unless_run :
    Urls → RunRequest → Tables → Option PlaybookRun → Tables × Option PlaybookRun
unless_run u q t (some run) = (t, some run)
unless_run u q t none =
    let lease = acquire_tenant_concurrency_lease q.redis_tokens q.tenant_id t in
    let r = started u q lease.0 in if lease.1 then (r.0, some r.1) else (t, none)

unfoldable pub execute_playbook : Urls → RunRequest → Tables → Tables × Option PlaybookRun
unfolding run_actions get_or_create_policy
execute_playbook u q t = unless_run u q t (find (has_run_key q) t.runs)
