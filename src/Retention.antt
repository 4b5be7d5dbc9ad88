-- ===== src/Retention.antt =====
-- The retention worker, backend/services/retention_worker.py: the batches in which old rows are deleted.
-- Instants are microseconds. A row is its primary key, its age, its status, and the rest of it.
pub mod Pruning
mod Examples
use ai_cyber_security_suite.Prelude.{
  ℕ, zero, suc, ◌+◌, ◌-◌, ◌*◌, Bool, true, false, not, ◌||◌, ◌&&◌, List, [], ◌∷◌, map,
  if◌then◌else◌, ltb, ◌==◌, length, select, delete,
}
use ai_cyber_security_suite.Dispatcher.Outbox.{JobStatus, delivered, seconds}
use ai_cyber_security_suite.Containment.Model.{
  ActionStatus, executed, blocked_by_allowlist, RunStatus, completed,
}
use ai_cyber_security_suite.Containment.Model

pub record Row {ℓ} (S : Type ℓ) : Type ℓ where
  pub ident : ℕ
  pub created_at : ℕ
  pub status : S
  pub content : ℕ

abbrev pub id_of {ℓ} : {S : Type ℓ} → Row S → ℕ
id_of r = r.ident

abbrev pub default_batch_size : ℕ
default_batch_size = 500

abbrev pub days : ℕ → ℕ
days n = n * seconds 86400

-- The loop of the four pruning methods. `running i` is what _running reads at the start of round i; the
-- first argument is fuel, one for each round.
unfoldable pub prune :
    {S : Type 0} → ℕ → (ℕ → Bool) → ℕ → (Row S → Bool) → ℕ → List (Row S) → ℕ → List (Row S) × ℕ
prune zero running batch_size test i rows total = (rows, total)
prune (suc fuel) running batch_size test i rows total =
    let batch = select test id_of batch_size rows in
    let left = delete id_of (map id_of batch) rows in
    let total_deleted = total + length batch in
    let rest = prune fuel running batch_size test (i + 1) left total_deleted in
    if not (running i)
    then (rows, total)
    else if length batch == 0
    then (rows, total)
    else if ltb (length batch) batch_size
    then (left, total_deleted)
    else rest

abbrev pub older {ℓ} : {S : Type ℓ} → ℕ → Row S → Bool
older cutoff r = ltb r.created_at cutoff

-- `status IN ('DELIVERED', 'DEAD_LETTER')`; no outbox row has the second.
abbrev pub outbox_prunable : JobStatus → Bool
outbox_prunable delivered = true
outbox_prunable _ = false

abbrev pub action_prunable : ActionStatus → Bool
action_prunable executed = true
action_prunable ActionStatus.reverted = true
action_prunable ActionStatus.failed = true
action_prunable blocked_by_allowlist = true
action_prunable _ = false

abbrev pub run_prunable : RunStatus → Bool
run_prunable completed = true
run_prunable RunStatus.failed = true
run_prunable RunStatus.reverted = true
run_prunable _ = false

-- The tables that a pass prunes.
pub record Tables : Type 0 where
  pub soc_event_stream : List (Row (Unit {0}))
  pub notification_outbox : List (Row JobStatus)
  pub soc_containment_actions : List (Row ActionStatus)
  pub soc_playbook_runs : List (Row RunStatus)

-- One round more than the table has rows is enough.
abbrev pub prune_table :
    {S : Type 0} → (ℕ → Bool) → ℕ → (Row S → Bool) → List (Row S) → List (Row S)
prune_table running batch_size test rows =
    (prune (suc (length rows)) running batch_size test 0 rows 0).0

-- The thresholds of 7, 30 and 90 days.
unfoldable pub run_once : (ℕ → Bool) → ℕ → ℕ → Tables → Tables
run_once running batch_size now t = record {
  soc_event_stream = prune_table running batch_size (older (now - days 7)) t.soc_event_stream;
  notification_outbox =
      prune_table running batch_size (λ r. older (now - days 30) r && outbox_prunable r.status)
        t.notification_outbox;
  soc_containment_actions =
      prune_table running batch_size (λ r. older (now - days 90) r && action_prunable r.status)
        t.soc_containment_actions;
  soc_playbook_runs =
      prune_table running batch_size (λ r. older (now - days 90) r && run_prunable r.status)
        t.soc_playbook_runs;
}
