-- ===== src/Scheduler/State.antt =====
-- The rows that the scheduler reads and writes (backend/database/models.py) and its settings.
-- Instants are microseconds. Pods, tokens, urls and labels are only compared for equality or
-- copied, so a number stands for each.
use ai_cyber_security_suite.Prelude.{ℕ, ◌*◌, Bool, Option, List}

-- `session.bind.dialect.name`
pub data Dialect : Type 0 where
  sqlite postgresql other : Dialect

-- The constants of scheduler_service.py, each read from the environment.
pub record Settings : Type 0 where
  pub leader_lease_seconds : ℕ
  pub worker_lease_seconds : ℕ
  pub claim_batch_size : ℕ

-- The settings of an environment that sets none.
abbrev pub default_settings : Settings
default_settings = record {
  leader_lease_seconds = 60;
  worker_lease_seconds = 45;
  claim_batch_size = 10;
}

abbrev pub seconds : ℕ → ℕ
seconds n = n * 1000000

abbrev pub minutes : ℕ → ℕ
minutes n = n * 60000000

-- The singleton row `scheduler_state`, id 1.
pub record SchedulerState : Type 0 where
  pub current_epoch : ℕ
  pub leader_pod_id : Option ℕ
  pub lease_acquired_at : Option ℕ
  pub lease_expires_at : Option ℕ
  pub updated_at : ℕ

-- A row of `monitoring_targets`: the columns that the scheduler and the workers use.
pub record MonitoringTarget : Type 0 where
  pub ident : ℕ
  pub url : ℕ
  pub normalized_domain : ℕ
  pub check_interval_minutes : ℕ
  pub is_active : Bool
  pub last_checked_at : Option ℕ
  pub next_check_at : ℕ
  pub last_prediction : Option ℕ
  pub last_confidence : Option ℕ
  pub consecutive_failures : ℕ
  pub execution_token : Option ℕ
  pub execution_epoch : Option ℕ
  pub execution_expires_at : Option ℕ
  pub user_id : ℕ

pub record Db : Type 0 where
  pub scheduler_state : Option SchedulerState
  pub monitoring_targets : List MonitoringTarget

-- What one call reads of its surroundings: the database's clock, the pod that calls and the
-- connection of its session.
pub record Caller : Type 0 where
  pub now : ℕ
  pub pod_id : ℕ
  pub connection : ℕ

-- PostgreSQL's session-level advisory lock on LEADER_LOCK_ID, by connection. `unlock` may raise.
pub record AdvisoryLock : Type 1 where
  pub Locks : Type 0
  pub try_lock : ℕ → Locks → Bool × Locks
  pub unlock : ℕ → Locks → Option Locks

pub record ClaimedTarget : Type 0 where
  pub target_id : ℕ
  pub url : ℕ
  pub normalized_domain : ℕ
  pub check_interval_minutes : ℕ
  pub execution_token : ℕ
  pub execution_epoch : ℕ
  pub user_id : ℕ

pub record LeaderState : Type 0 where
  pub is_leader : Bool
  pub epoch : ℕ
