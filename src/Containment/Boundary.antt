-- ===== src/Containment/Boundary.antt =====
-- Sequences of all operations of the containment service, and Rule 0 over them.
use ai_cyber_security_suite.Prelude.{
  ℕ, ◌+◌, ◌≡◌, refl, inl, inr, true, false, not, ◌&&◌, Option, none, some, List, [], ◌∷◌, ◌==◌, any,
  find, All-mono, All-update, Bool-cases,
}
use ai_cyber_security_suite.Alerts.Model.{Alert, User}
use ai_cyber_security_suite.Containment.Model.{
  ActionType, blacklist_indicator, invalidate_cache, quarantine_target, create_incident,
  emit_soc_event, send_notification, ActionStatus, Action, PlaybookRun, Tables,
}
use ai_cyber_security_suite.Containment.Allowlist.{Urls}
use ai_cyber_security_suite.Containment.Policies.{
  PolicyUpdate, is_current, get_or_create_policy, update_policy,
}
use ai_cyber_security_suite.Containment.Actions.{Request, fenced_type, execute_action}
use ai_cyber_security_suite.Containment.Actions.Rule0.{
  Obeys, synthesized_blacklist, execute_action-Obeys,
}
use ai_cyber_security_suite.Containment.Playbooks.{
  RunRequest, has_run_key, action_sequence, request_of, is_failed, LoopEnd, ran_all, broke,
  fenced_off, holds_run, run_actions, conclude, play, started, acquire_tenant_concurrency_lease,
  unless_run, execute_playbook,
}
use ai_cyber_security_suite.Containment.Playbooks.Evaluation.{
  Texts, Decision, no_playbook, raised, run_playbook, decide, carry_out, evaluate_for,
  evaluate_alert_containment,
}
use ai_cyber_security_suite.Containment.Rollback.{
  created_by, deactivated, release_target, undo, revert_by_status, revert_found, may_revert,
  revert_action,
}

pub data Operation : Type 0 where
  act : Request → Operation
  run : RunRequest → Operation
  evaluate : Texts → ℕ → Alert → Operation
  revert : ℕ → User → ℕ → Operation
  configure : ℕ → PolicyUpdate → ℕ → Operation

abbrev pub step : Urls → Operation → Tables → Tables
step u (act r) t = (execute_action u r t).0
step u (run q) t = (execute_playbook u q t).0
step u (evaluate x now a) t = (evaluate_alert_containment u x now a t).0
step u (revert now user uuid) t = (revert_action now user uuid t).0
step u (configure n p user) t = (update_policy n p user t).0

abbrev pub serve : Urls → List Operation → Tables → Tables
serve u [] t = t
serve u (o ∷ os) t = serve u os (step u o t)

loop-Obeys :
    (u : Urls) (q : RunRequest) (x : PlaybookRun) (k : ℕ) (tys : List ActionType) (t : Tables)
    → Obeys u t.blacklist
    → Obeys u (run_actions u q x k tys t).0.blacklist
unfolding run_actions
loop-Obeys u q x k [] t h = h
loop-Obeys u q x k (ty ∷ tys) t h =
    let r = execute_action u (request_of q x.ident ty) t in
    let done = execute_action-Obeys u (request_of q x.ident ty) t h in
    let rest = loop-Obeys u q x (k + 1) tys r.0 done in
    elim (Bool-cases (fenced_type ty && not (holds_run x t))) [
      | inl stop ↦ rw stop h
      | inr go ↦ elim (Bool-cases (is_failed r.1.status)) [
        | inl bad ↦ rw (go, bad) done
        | inr good ↦ rw (go, good) rest
      ]
    ]

conclude_keeps :
    (q : RunRequest) (x : PlaybookRun) (t : Tables) (e : LoopEnd)
    → (conclude q x t e).0.blacklist ≡ t.blacklist
conclude_keeps q x t (ran_all m) = refl
conclude_keeps q x t (broke m) = refl
conclude_keeps q x t (fenced_off m) = refl

play-Obeys :
    (u : Urls) (q : RunRequest) (x : PlaybookRun) (t : Tables) (seq : Option (List ActionType))
    → Obeys u t.blacklist
    → Obeys u (play u q x t seq).0.blacklist
play-Obeys u q x t none h = h
play-Obeys u q x t (some tys) h =
    let r = run_actions u q x 0 tys t in
    rw (conclude_keeps q x r.0 r.1) (loop-Obeys u q x 0 tys t h)

lease-Obeys :
    (u : Urls) (redis : Option ℕ) (n : ℕ) (t : Tables)
    → Obeys u t.blacklist
    → Obeys u (acquire_tenant_concurrency_lease redis n t).0.blacklist
lease-Obeys u (some tokens) n t h = h
lease-Obeys u none n t h = rw (synthesized_blacklist n t) h

unless-Obeys :
    (u : Urls) (q : RunRequest) (t : Tables) (x : Option PlaybookRun)
    → Obeys u t.blacklist
    → Obeys u (unless_run u q t x).0.blacklist
unless-Obeys u q t (some x) h = h
unless-Obeys u q t none h =
    let lease = acquire_tenant_concurrency_lease q.redis_tokens q.tenant_id t in
    let begun = lease-Obeys u q.redis_tokens q.tenant_id t h in
    let played : Obeys u (started u q lease.0).0.blacklist =
      play-Obeys u q _ _ (action_sequence q.playbook_name) begun in
    elim (Bool-cases lease.1) [ inl granted ↦ rw granted played | inr full ↦ rw full h ]

execute_playbook-Obeys :
    (u : Urls) (q : RunRequest) (t : Tables)
    → Obeys u t.blacklist
    → Obeys u (execute_playbook u q t).0.blacklist
unfolding execute_playbook
execute_playbook-Obeys u q t h = unless-Obeys u q t (find (has_run_key q) t.runs) h

carry-Obeys :
    (u : Urls) (t : Tables) (d : Decision)
    → Obeys u t.blacklist
    → Obeys u (carry_out u t d).0.blacklist
carry-Obeys u t no_playbook h = h
carry-Obeys u t raised h = h
carry-Obeys u t (run_playbook q) h = execute_playbook-Obeys u q t h

evaluate-Obeys :
    (u : Urls) (x : Texts) (now : ℕ) (a : Alert) (t : Tables) (user : Option ℕ)
    → Obeys u t.blacklist
    → Obeys u (evaluate_for u x now a t user).0.blacklist
evaluate-Obeys u x now a t none h = h
evaluate-Obeys u x now a t (some n) h =
    let r = get_or_create_policy n t in
    carry-Obeys u r.0 (decide x now n r.1 a r.0) (rw (synthesized_blacklist n t) h)

release_keeps :
    (a : Action) (q : Option ℕ) (t : Tables) → (release_target a q t).blacklist ≡ t.blacklist
release_keeps a none t = refl
release_keeps a (some n) t = refl

-- A reversal only deactivates.
undo-Obeys :
    (u : Urls) (now : ℕ) (a : Action) (ty : ActionType) (t : Tables)
    → Obeys u t.blacklist
    → Obeys u (undo now a ty t).blacklist
undo-Obeys u now a blacklist_indicator t h =
    All-update _ (created_by a.ident) (deactivated now) t.blacklist (
      All-mono _ _
        (λ e k. elim (Bool-cases (created_by a.ident e)) [
          | inl y ↦ rw y (λ (off : false ≡ true). cc)
          | inr n ↦ rw n k
        ])
        t.blacklist h)
undo-Obeys u now a quarantine_target t h = rw (release_keeps a a.quarantined t) h
undo-Obeys u now a invalidate_cache t h = h
undo-Obeys u now a create_incident t h = h
undo-Obeys u now a emit_soc_event t h = h
undo-Obeys u now a send_notification t h = h

status-Obeys :
    (u : Urls) (now : ℕ) (user : User) (a : Action) (s : ActionStatus) (t : Tables)
    → Obeys u t.blacklist
    → Obeys u (revert_by_status now user a s t).0.blacklist
status-Obeys u now user a ActionStatus.executed t h = undo-Obeys u now a a.action_type t h
status-Obeys u now user a ActionStatus.reverted t h = h
status-Obeys u now user a ActionStatus.pending t h = h
status-Obeys u now user a ActionStatus.failed t h = h
status-Obeys u now user a ActionStatus.blocked_by_allowlist t h = h
status-Obeys u now user a ActionStatus.skipped t h = h

found-Obeys :
    (u : Urls) (now : ℕ) (user : User) (t : Tables) (q : Option Action)
    → Obeys u t.blacklist
    → Obeys u (revert_found now user t q).0.blacklist
found-Obeys u now user t none h = h
found-Obeys u now user t (some a) h = elim (Bool-cases (may_revert user a)) [
  | inl may ↦ rw may (status-Obeys u now user a a.status t h)
  | inr foreign ↦ rw foreign h
]

update-Obeys :
    (u : Urls) (n : ℕ) (p : PolicyUpdate) (user : ℕ) (t : Tables)
    → Obeys u t.blacklist
    → Obeys u (update_policy n p user t).0.blacklist
unfolding update_policy
update-Obeys u n p user t h =
    elim (Bool-cases (any (is_current n p) (get_or_create_policy n t).0.policies)) [
      | inl e ↦ rw e (rw (synthesized_blacklist n t) h)
      | inr e ↦ rw e h
    ]

step-Obeys :
    (u : Urls) (o : Operation) (t : Tables) → Obeys u t.blacklist → Obeys u (step u o t).blacklist
unfolding evaluate_alert_containment revert_action
step-Obeys u (act r) t h = execute_action-Obeys u r t h
step-Obeys u (run q) t h = execute_playbook-Obeys u q t h
step-Obeys u (evaluate x now a) t h = evaluate-Obeys u x now a t a.user_id h
step-Obeys u (revert now user uuid) t h =
    found-Obeys u now user t (find (λ a. a.action_uuid == uuid) t.actions) h
step-Obeys u (configure n p user) t h = update-Obeys u n p user t h

-- Rule 0 on the blacklist: over any sequence of actions, playbooks, alert evaluations, reversals and
-- policy updates, no active entry of the blacklist is of an allowlisted indicator, if none is at first.
pub serve-Obeys :
    (u : Urls) (os : List Operation) (t : Tables)
    → Obeys u t.blacklist
    → Obeys u (serve u os t).blacklist
serve-Obeys u [] t h = h
serve-Obeys u (o ∷ os) t h = serve-Obeys u os (step u o t) (step-Obeys u o t h)
