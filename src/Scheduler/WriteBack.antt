-- ===== src/Scheduler/WriteBack.antt =====
-- The fenced write-back of a result (write_back_result), and the worker's check of its lease before
-- any outbound traffic (validate_lease of backend/services/monitoring_worker.py).
pub mod Fencing
use ai_cyber_security_suite.Prelude.{
  ℕ, ◌+◌, Bool, ◌&&◌, none, some, if◌then◌else◌, ◌==◌, sql_eq, sql_gt, any, update,
}
use ai_cyber_security_suite.Scheduler.State.{MonitoringTarget, Db, minutes}

-- What a worker reports for the target that it was given.
pub record Report : Type 0 where
  pub target_id : ℕ
  pub execution_token : ℕ
  pub execution_epoch : ℕ
  pub last_checked_at : ℕ
  pub interval_minutes : ℕ
  pub last_prediction : ℕ
  pub last_confidence : ℕ
  pub consecutive_failures : ℕ

-- The row of this id, under this token and epoch, with a lease that has not expired.
abbrev pub holds_lease : ℕ → ℕ → ℕ → ℕ → MonitoringTarget → Bool
holds_lease now ident token epoch t =
    t.ident == ident
    && (sql_eq t.execution_token token
        && (sql_eq t.execution_epoch epoch && sql_gt t.execution_expires_at now))

unfoldable pub validate_lease : ℕ → ℕ → ℕ → ℕ → Db → Bool
validate_lease now ident token epoch db =
    any (holds_lease now ident token epoch) db.monitoring_targets

abbrev pub report_holds : ℕ → Report → MonitoringTarget → Bool
report_holds now r = holds_lease now r.target_id r.execution_token r.execution_epoch

-- The row that a committed write-back leaves: the result is stored and the lease is given up.
abbrev pub written : Report → MonitoringTarget → MonitoringTarget
written r t = record t {
  last_checked_at = some r.last_checked_at;
  next_check_at = r.last_checked_at + minutes r.interval_minutes;
  last_prediction = some r.last_prediction;
  last_confidence = some r.last_confidence;
  consecutive_failures = r.consecutive_failures;
  execution_token = none;
  execution_epoch = none;
  execution_expires_at = none;
}

-- `result.rowcount > 0` decides between commit and rollback.
unfoldable pub write_back_result : ℕ → Report → Db → Db × Bool
write_back_result now r db =
    let committed = any (report_holds now r) db.monitoring_targets in
    let after = update (report_holds now r) (written r) db.monitoring_targets in
    if committed then (record db { monitoring_targets = after }, committed) else (db, committed)
