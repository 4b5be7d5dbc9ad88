-- ===== src/Scheduler/WriteBack/Fencing.antt =====
-- Which write-backs are committed: the triple predicate, once for each claim, and nothing stale.
use ai_cyber_security_suite.Prelude.{
  ==_iff, Memᴰ, All-Memᴰ, ℕ, ◌≤◌, ◌<◌, ◌+◌, ◌≡◌, ◌≢◌, ◌∙◌, sym, subst, inl, inr, Bool, true, false,
  some, List, [], ◌∷◌, refl, arith, ◌==◌, Bool-cases, any, update, All, row_of, row_of_self,
  row_of-key, Distinct,
}
use ai_cyber_security_suite.Scheduler.State.{
  Dialect, sqlite, postgresql, other, Settings, MonitoringTarget, Db, Caller, ClaimedTarget,
  AdvisoryLock, seconds,
}
use ai_cyber_security_suite.Scheduler.Election.{World, attempt_election, try_advisory_lock}
use ai_cyber_security_suite.Scheduler.Claims.{as_claimed, lease, claim_targets, claim_rows}
use ai_cyber_security_suite.Scheduler.Claims.Selection.{ident_of}
use ai_cyber_security_suite.Scheduler.Claims.Exclusive.{claim_rows-Granted, claim_rows-Distinct}
use ai_cyber_security_suite.Scheduler.WriteBack.{
  Report, holds_lease, report_holds, written, validate_lease, write_back_result,
}

-- A write-back is committed exactly if the worker's own check of its lease passes at that instant.
pub write_back_result-validate_lease :
    (now : ℕ) (r : Report) (db : Db)
    → (write_back_result now r db).1
      ≡ validate_lease now r.target_id r.execution_token r.execution_epoch db
unfolding write_back_result validate_lease
write_back_result-validate_lease now r db =
    elim (Bool-cases (any (report_holds now r) db.monitoring_targets)) [
      | inl e ↦ rw e
      | inr e ↦ rw e
    ]

none_after :
    (now later : ℕ) (r : Report) (ts : List MonitoringTarget)
    → now ≤ later
    → any (report_holds later r) (update (report_holds now r) (written r) ts) ≡ false
none_after now later r [] h = refl
none_after now later r (t ∷ ts) h = ground (arith, none_after now later r ts)

-- A result is stored once: after a committed write-back, a report on the same target under the same
-- token and epoch is refused at any later time, and changes nothing.
pub write_back_result_once :
    (now later : ℕ) (r r' : Report) (db : Db)
    → now ≤ later
    → r'.target_id ≡ r.target_id
    → r'.execution_token ≡ r.execution_token
    → r'.execution_epoch ≡ r.execution_epoch
    → (write_back_result now r db).1 ≡ true
    → write_back_result later r' (write_back_result now r db).0
      ≡ ((write_back_result now r db).0, false)
unfolding write_back_result
write_back_result_once now later r r' db h i t e ok =
    ground (arith, none_after now later r db.monitoring_targets)

any-row_of :
    (now ident token epoch : ℕ) (ts : List MonitoringTarget) (t : MonitoringTarget)
    → row_of ident_of ident ts ≡ some t
    → holds_lease now ident token epoch t ≡ true
    → any (holds_lease now ident token epoch) ts ≡ true
any-row_of now ident token epoch [] t row ok = cc
any-row_of now ident token epoch (x ∷ xs) t row ok =
    ground (arith, any-row_of now ident token epoch xs t)

any_only :
    (now ident token epoch : ℕ) (ts : List MonitoringTarget) (t : MonitoringTarget)
    → All (λ x. row_of ident_of x.ident (ts) ≡ some x) ts
    → row_of ident_of ident ts ≡ some t
    → holds_lease now ident token epoch t ≡ false
    → (xs : List MonitoringTarget) → All (λ x. row_of ident_of x.ident ts ≡ some x) xs
    → any (holds_lease now ident token epoch) xs ≡ false
any_only now ident token epoch ts t u row bad [] h = refl
any_only now ident token epoch ts t u row bad (x ∷ xs) h =
    let rest = any_only now ident token epoch ts t u row bad xs h.1 in
    elim (Bool-cases (x.ident == ident)) [
      | inl e ↦
          let same : x ≡ t = some_inj x t (
            sym h.0
            ∙ subst (λ k. row_of ident_of k ts ≡ some t) (sym ((==_iff x.ident ident).0 e)) row) in
          rw (subst (λ y. holds_lease now ident token epoch y ≡ false) (sym same) bad) rest
      | inr e ↦ rw e rest
    ]
  where
    some_inj : (a b : MonitoringTarget) → some a ≡ some b → a ≡ b
    some_inj a b e = cc

write_back_result-none :
    (now : ℕ) (r : Report) (db : Db)
    → any (report_holds now r) db.monitoring_targets ≡ false
    → write_back_result now r db ≡ (db, false)
unfolding write_back_result
write_back_result-none now r db h = rw h

foreign_token :
    (uuid : ℕ → ℕ) (epoch expires now : ℕ) (r : Report) (cl : ClaimedTarget) (t : MonitoringTarget)
    → cl ≡ as_claimed uuid epoch t
    → r.execution_token ≢ cl.execution_token
    → report_holds now r (lease uuid epoch expires t) ≡ false
foreign_token uuid epoch expires now r cl t e ne = ground arith

-- A report about a claimed target, under the claim's token and epoch.
abbrev pub Answers : Report → ClaimedTarget → Type 0
Answers r cl =
    (r.target_id ≡ cl.target_id)
    × (r.execution_token ≡ cl.execution_token)
    × (r.execution_epoch ≡ cl.execution_epoch)

granted_any :
    (uuid : ℕ → ℕ) (epoch expires later : ℕ) (r : Report) (cl : ClaimedTarget)
    (t : MonitoringTarget) (db : Db)
    → cl ≡ as_claimed uuid epoch t
    → row_of ident_of cl.target_id db.monitoring_targets ≡ some (lease uuid epoch expires t)
    → Answers r cl
    → later < expires
    → validate_lease later r.target_id r.execution_token r.execution_epoch db ≡ true
unfolding validate_lease
granted_any uuid epoch expires later r cl t db e row (i, k, n) soon =
    any-row_of later r.target_id r.execution_token r.execution_epoch db.monitoring_targets
      (lease uuid epoch expires t)
      (subst (λ j. row_of ident_of j db.monitoring_targets ≡ some (lease uuid epoch expires t))
        (sym i) row)
      (ground (
        arith,
        row_of-key ident_of cl.target_id db.monitoring_targets (lease uuid epoch expires t) row,
      ))

module _ (d : Dialect) (cfg : Settings) (c : Caller) (epoch : ℕ) (uuid : ℕ → ℕ) (locked : ℕ → Bool)
    (db : Db) where
  abbrev claimed_db : Db
  claimed_db = (claim_targets d cfg c epoch uuid locked db).0

  -- A worker that answers within its lease is heard: where the ids of the targets are distinct, the
  -- report that answers a claimed target is committed, if no other operation comes between.
  pub write_back_result-claim_targets :
      (cl : ClaimedTarget) (later : ℕ) (r : Report)
      → Distinct ident_of db.monitoring_targets
      → Memᴰ cl (claim_targets d cfg c epoch uuid locked db).1
      → Answers r cl
      → later < c.now + seconds cfg.worker_lease_seconds
      → (write_back_result later r (claim_targets d cfg c epoch uuid locked db).0).1 ≡ true
  unfolding claim_targets
  write_back_result-claim_targets cl later r u m a soon =
      let g = All-Memᴰ _ (claim_rows-Granted cfg c epoch uuid locked db.monitoring_targets d u) m in
      write_back_result-validate_lease later r _
      ∙ granted_any uuid epoch _ later r cl g.0 _ g.3 g.4 a soon

  -- A worker whose target was claimed again is fenced off: where the ids of the targets are
  -- distinct, a report on a target that a claim handed out, under another token than the claim's,
  -- is refused at any time after the claim, and changes nothing.
  pub write_back_result-reclaimed :
      (cl : ClaimedTarget) (later : ℕ) (r : Report)
      → Distinct ident_of db.monitoring_targets
      → Memᴰ cl (claim_targets d cfg c epoch uuid locked db).1
      → r.target_id ≡ cl.target_id
      → r.execution_token ≢ cl.execution_token
      → write_back_result later r (claim_targets d cfg c epoch uuid locked db).0
        ≡ ((claim_targets d cfg c epoch uuid locked db).0, false)
  unfolding claim_targets
  write_back_result-reclaimed cl later r u m same fresh =
      let ts = db.monitoring_targets in
      let after = (claim_rows d cfg c epoch uuid locked ts).0 in
      let g = All-Memᴰ _ (claim_rows-Granted cfg c epoch uuid locked ts d u) m in
      write_back_result-none later r _ (
        any_only later r.target_id r.execution_token r.execution_epoch after
          (lease uuid epoch (c.now + seconds cfg.worker_lease_seconds) g.0)
          (row_of_self ident_of after (claim_rows-Distinct cfg c epoch uuid locked ts d u))
          (subst
            (λ k.
              row_of ident_of k after
              ≡ some (lease uuid epoch (c.now + seconds cfg.worker_lease_seconds) g.0))
            (sym same) g.4)
          (foreign_token uuid epoch _ later r cl g.0 g.3 fresh) after
          (row_of_self ident_of after (claim_rows-Distinct cfg c epoch uuid locked ts d u)))

targets_only :
    (now : ℕ) (r : Report) (db db' : Db)
    → db.monitoring_targets ≡ db'.monitoring_targets
    → (write_back_result now r db).1 ≡ true
    → (write_back_result now r db').1 ≡ true
unfolding write_back_result
targets_only now r db db' e h = ground arith

election_targets :
    (locking : AdvisoryLock) (d : Dialect) (cfg : Settings) (c : Caller) (raises : Bool)
    (w : World locking)
    → w.db.monitoring_targets ≡ (attempt_election locking d cfg c raises w).0.db.monitoring_targets
unfolding attempt_election try_advisory_lock
election_targets locking sqlite cfg c raises w = ground arith
election_targets locking postgresql cfg c raises w = ground arith
election_targets locking other cfg c raises w = ground arith

-- The epoch is checked against the row and not against the scheduler's current epoch: a claim of an
-- earlier leader is still answered after any pod's election, as long as its lease runs.
pub write_back_result_after_election :
    (locking : AdvisoryLock) (d : Dialect) (cfg : Settings) (c c' : Caller) (epoch : ℕ)
    (uuid : ℕ → ℕ) (locked : ℕ → Bool) (raises : Bool) (w : World locking) (cl : ClaimedTarget)
    (later : ℕ) (r : Report)
    → Distinct ident_of w.db.monitoring_targets
    → Memᴰ cl (claim_targets d cfg c epoch uuid locked w.db).1
    → Answers r cl
    → later < c.now + seconds cfg.worker_lease_seconds
    → (write_back_result later r
        (attempt_election locking d cfg c' raises
          (record w { db = (claim_targets d cfg c epoch uuid locked w.db).0 })).0.db).1
      ≡ true
write_back_result_after_election locking d cfg c c' epoch uuid locked raises w cl later r u m a
      soon =
    targets_only later r _ _
      (election_targets locking d cfg c' raises
        (record w { db = (claim_targets d cfg c epoch uuid locked w.db).0 }))
      (write_back_result-claim_targets d cfg c epoch uuid locked w.db cl later r u m a soon)
