-- ===== src/Containment/Playbooks/Runs.antt =====
-- How a playbook run ends, and the limit on concurrent ones.
use ai_cyber_security_suite.Prelude.{
  ℕ, suc, ◌+◌, ◌≤◌, ◌<◌, ◌≡◌, ◌⊎◌, refl, ap, ◌∙◌, inl, inr, true, false, not, ◌&&◌, Option, none,
  some, List, [], ◌∷◌, ◌++◌, leb, leb→le, ◌==◌, ==_iff, any-snoc, All, find, length, update,
  Bool-cases, arith,
}
use ai_cyber_security_suite.Containment.Model.{
  ActionType, Action, PlaybookRun, PlaybookName, critical_threat_auto_containment,
  repeated_target_compromise_quarantine, manual_containment, other_playbook, RunStatus, Policy,
  Tables, playbook_triggered,
}
use ai_cyber_security_suite.Containment.Allowlist.{Urls}
use ai_cyber_security_suite.Containment.Policies.{policy_of, synthesized, get_or_create_policy}
use ai_cyber_security_suite.Containment.Actions.{
  Request, has_key, unless_done, execute_action, fenced_type,
}
use ai_cyber_security_suite.Containment.Actions.Identity.{
  perform-Frames, policy-Frames, same_alert_self,
}
use ai_cyber_security_suite.Containment.Playbooks.{
  max_concurrent_playbooks_per_tenant, same_playbook, running_of, RunRequest, has_run_key, new_run,
  action_sequence, request_of, is_failed, LoopEnd, ran_all, broke, fenced_off, holds_run,
  run_actions, close_run, emitted, conclude, play, started, acquire_tenant_concurrency_lease,
  unless_run, execute_playbook,
}

done_runs :
    (u : Urls) (r : Request) (t : Tables) (q : Option Action)
    → (unless_done u r t q).0.runs ≡ t.runs
done_runs u r t (some a) = refl
done_runs u r t none = (perform-Frames u r t.next (t.next + 1) (record t { next = t.next + 2 })).1

execute_action_runs : (u : Urls) (r : Request) (t : Tables) → (execute_action u r t).0.runs ≡ t.runs
unfolding execute_action
execute_action_runs u r t = done_runs u r t (find (has_key r) t.actions)

-- The count that a loop ends with, over as many actions as it has.
abbrev pub Counts : ℕ → ℕ → LoopEnd → Type 0
Counts k n (ran_all m) = m ≡ k + n
Counts k n (broke m) = m ≤ k + n
Counts k n (fenced_off m) = ⊥

Counts-suc : (k n : ℕ) (e : LoopEnd) → Counts (k + 1) n e → Counts k (suc n) e
Counts-suc k n (ran_all m) h = omega arith
Counts-suc k n (broke m) h = omega arith
Counts-suc k n (fenced_off m) h = absurd h

-- A loop whose run is in the table as running is never fenced off, and leaves the runs as they are.
loop :
    (u : Urls) (q : RunRequest) (run : PlaybookRun) (k : ℕ) (tys : List ActionType) (t : Tables)
    → holds_run run t ≡ true
    → ((run_actions u q run k tys t).0.runs ≡ t.runs)
      × Counts k (length tys) (run_actions u q run k tys t).1
unfolding run_actions
loop u q run k [] t held = (refl, omega arith)
loop u q run k (ty ∷ tys) t held =
    let r = execute_action u (request_of q run.ident ty) t in
    let same = execute_action_runs u (request_of q run.ident ty) t in
    let still : holds_run run r.0 ≡ true = rw same held in
    let rest = loop u q run (k + 1) tys r.0 still in
    let pass : fenced_type ty && not (holds_run run t) ≡ false = rw held (ground arith) in
    elim (Bool-cases (is_failed r.1.status)) [
      | inl e ↦ rw (pass, e) (same, omega arith)
      | inr e ↦
          rw (pass, e)
            (
              rest.0 ∙ same,
              Counts-suc k (length tys) (run_actions u q run (k + 1) tys r.0).1 rest.1,
            )
    ]

-- The runs of a table without this id, and the run itself, when the run is saved.
save_last :
    (run x : PlaybookRun) (runs : List PlaybookRun)
    → All (λ y. (y.ident == x.ident) ≡ false) runs
    → run.ident ≡ x.ident
    → update (λ y. y.ident == x.ident) (λ _. x) (runs ++ run ∷ []) ≡ runs ++ x ∷ []
save_last run x [] h e = rw (e, (==_iff x.ident x.ident).1 refl) refl
save_last run x (y ∷ ys) h e = rw (h.0, save_last run x ys h.1 e) refl

-- How a run may have ended, by the actions of its playbook.
abbrev pub HasEnded : Option (List ActionType) → PlaybookRun → Type 0
HasEnded none run = (run.status ≡ RunStatus.failed) × (run.action_count ≡ 0)
HasEnded (some tys) run =
    ((run.status ≡ RunStatus.completed) × (run.action_count ≡ length tys))
    ⊎ ((run.status ≡ RunStatus.failed) × (run.action_count ≤ length tys))

-- What a new run leaves behind.
abbrev pub Leaves : RunRequest → Tables → Tables × PlaybookRun → Type 0
Leaves q t (v, run) =
    (v.runs ≡ t.runs ++ run ∷ [])
    × HasEnded (action_sequence q.playbook_name) run
    × (has_run_key q run ≡ true)
    × (run.completed_at ≡ some q.now)

concluded :
    (q : RunRequest) (run : PlaybookRun) (t v : Tables) (tys : List ActionType) (e : LoopEnd)
    → v.runs ≡ t.runs ++ run ∷ []
    → All (λ y. (y.ident == run.ident) ≡ false) t.runs
    → Counts 0 (length tys) e
    → ((conclude q run v e).0.runs ≡ t.runs ++ (conclude q run v e).1 ∷ [])
      × HasEnded (some tys) (conclude q run v e).1
concluded q run t v tys (ran_all m) same fresh h = (
  rw same (save_last run (close_run q.now m RunStatus.completed run) t.runs fresh refl),
  inl (refl, omega arith),
)
concluded q run t v tys (broke m) same fresh h = (
  rw same (save_last run (close_run q.now m RunStatus.failed run) t.runs fresh refl),
  inr (refl, omega arith),
)
concluded q run t v tys (fenced_off m) same fresh h = absurd h

policy_next : (n : ℕ) (t : Tables) → (get_or_create_policy n t).0.next ≡ t.next
unfolding get_or_create_policy
policy_next n t = go (policy_of n t)
  where
    go : (q : Option Policy) → (synthesized n t q).0.next ≡ t.next
    go (some p) = refl
    go none = refl

same_playbook_self : (p : PlaybookName) → same_playbook p p ≡ true
same_playbook_self critical_threat_auto_containment = refl
same_playbook_self repeated_target_compromise_quarantine = refl
same_playbook_self manual_containment = refl
same_playbook_self (other_playbook n) = (==_iff n n).1 refl

own_run_key : (q : RunRequest) (n : ℕ) → has_run_key q (new_run q n) ≡ true
own_run_key q n =
    rw
      (
        (==_iff q.tenant_id q.tenant_id).1 refl,
        same_alert_self q.alert_id,
        same_playbook_self q.playbook_name,
      )
      refl

abbrev inserted : RunRequest → Tables → Tables
inserted q t =
    emitted q (new_run q t.next) playbook_triggered
      (record t { runs = t.runs ++ new_run q t.next ∷ []; next = t.next + 2 })

-- Closing a run keeps what its key is made of.
conclude_key :
    (q : RunRequest) (run : PlaybookRun) (v : Tables) (e : LoopEnd)
    → has_run_key q run ≡ true
    → (has_run_key q (conclude q run v e).1 ≡ true)
      × ((conclude q run v e).1.completed_at ≡ some q.now)
conclude_key q run v (ran_all m) h = (h, refl)
conclude_key q run v (broke m) h = (h, refl)
conclude_key q run v (fenced_off m) h = (h, refl)

played :
    (u : Urls) (q : RunRequest) (t : Tables) (seq : Option (List ActionType))
    → All (λ y. (y.ident == t.next) ≡ false) t.runs
    → action_sequence q.playbook_name ≡ seq
    → Leaves q t (play u q (new_run q t.next) (inserted q t) seq)
played u q t none fresh e = (
  save_last _ (close_run q.now 0 RunStatus.failed (new_run q t.next)) t.runs fresh refl,
  rw e (refl, refl),
  own_run_key q t.next,
  refl,
)
played u q t (some tys) fresh e =
    let run = new_run q t.next in
    let held : holds_run run (inserted q t) ≡ true =
      any-snoc _ t.runs run (rw ((==_iff t.next t.next).1 refl) refl) in
    let all = loop u q run 0 tys (inserted q t) held in
    let r = run_actions u q run 0 tys (inserted q t) in
    let done = concluded q run t r.0 tys r.1 all.0 fresh all.1 in
    let key = conclude_key q run r.0 r.1 (own_run_key q t.next) in
    (done.0, rw e done.1, key.0, key.1)

-- What the limit is held against: the tokens that Redis counts, and without Redis the tenant's runs
-- that are running.
abbrev pub load : Option ℕ → ℕ → List PlaybookRun → ℕ
load (some tokens) tenant runs = tokens
load none tenant runs = running_of tenant runs

lease_lem :
    (redis : Option ℕ) (n : ℕ) (t : Tables)
    → ((acquire_tenant_concurrency_lease redis n t).0.runs ≡ t.runs)
      × ((acquire_tenant_concurrency_lease redis n t).0.next ≡ t.next)
      × ((acquire_tenant_concurrency_lease redis n t).1
          ≡ not (leb max_concurrent_playbooks_per_tenant (load redis n t.runs)))
lease_lem (some tokens) n t = (refl, refl, refl)
lease_lem none n t = ((policy-Frames n t).1, policy_next n t, rw (policy-Frames n t).1 refl)

-- What an answer tells of the call that gave it; none is the 429.
abbrev pub Played : RunRequest → Tables → Tables × Option PlaybookRun → Type 0
Played q t (v, none) =
    (v ≡ t)
    × (find (has_run_key q) t.runs ≡ none)
    × (max_concurrent_playbooks_per_tenant ≤ load q.redis_tokens q.tenant_id t.runs)
Played q t (v, some run) =
    ((v ≡ t) × (find (has_run_key q) t.runs ≡ some run))
    ⊎ ((find (has_run_key q) t.runs ≡ none)
        × (load q.redis_tokens q.tenant_id t.runs < max_concurrent_playbooks_per_tenant)
        × Leaves q t (v, run))

by_run :
    (u : Urls) (q : RunRequest) (t : Tables) (x : Option PlaybookRun)
    → All (λ y. (y.ident == t.next) ≡ false) t.runs
    → find (has_run_key q) t.runs ≡ x
    → Played q t (unless_run u q t x)
by_run u q t (some run) fresh found = inl (refl, found)
by_run u q t none fresh found =
    let t1 = (acquire_tenant_concurrency_lease q.redis_tokens q.tenant_id t).0 in
    let (same, next, granted) = lease_lem q.redis_tokens q.tenant_id t in
    let fresh1 : All (λ y. (y.ident == t1.next) ≡ false) t1.runs = rw (same, next) fresh in
    let left = played u q t1 (action_sequence q.playbook_name) fresh1 refl in
    let n1 = load q.redis_tokens q.tenant_id t.runs in
    elim (Bool-cases (leb max_concurrent_playbooks_per_tenant n1)) [
      | inl full ↦ rw (granted, full) (refl, found, leb→le _ n1 full)
      | inr room ↦
          let less : n1 < max_concurrent_playbooks_per_tenant = ground arith in
          rw (granted, room)
            (inr (
              found,
              less,
              (
                left.0 ∙ ap (λ (xs : List PlaybookRun). xs ++ (started u q t1).1 ∷ []) same,
                left.1,
                left.2,
                left.3,
              ),
            ))
    ]

-- A playbook is answered with the run of its key where there is one, and then nothing is written; else
-- with a 429, and nothing is written, exactly where Redis counts at least five tokens or, without Redis,
-- at least five runs of the tenant are running; else with one
-- new run, of that key and the only one that is added, that has ended: completed after all actions of
-- its playbook, or failed after at most all of them, or failed with no action where the playbook is
-- unknown. The id that is drawn for the run is new.
pub execute_playbook-Played :
    (u : Urls) (q : RunRequest) (t : Tables)
    → All (λ y. (y.ident == t.next) ≡ false) t.runs
    → Played q t (execute_playbook u q t)
unfolding execute_playbook
execute_playbook-Played u q t fresh = by_run u q t (find (has_run_key q) t.runs) fresh refl
