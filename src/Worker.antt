-- ===== src/Worker.antt =====
-- The monitoring worker, backend/services/monitoring_worker.py: the classification of a check and what
-- its end writes. A confidence is a number of ten-thousandths. The probe, the prediction and the alert pipeline are
-- what a check observes.
pub mod Checks
mod Examples
use ai_cyber_security_suite.Prelude.{
  ℕ, ◌+◌, ◌*◌, ◌^◌, min, Bool, true, false, not, ◌||◌, ◌&&◌, Option, none, some, List, [], ◌∷◌,
  ◌++◌, if◌then◌else◌, leb, ltb, ◌==◌, update, row_of,
}
use ai_cyber_security_suite.Scheduler.State.{MonitoringTarget, Db, ClaimedTarget}
use ai_cyber_security_suite.Scheduler.WriteBack.{Report, validate_lease, write_back_result}

pub data ProbeFailureCategory : Type 0 where
  ssrf_blocked dns_failure connection_timeout tls_validation_failure : ProbeFailureCategory
  http_client_error http_server_error redirect_limit response_too_large : ProbeFailureCategory
  unknown_failure : ProbeFailureCategory

pub record ProbeResult : Type 0 where
  pub success : Bool
  pub failure_category : Option ProbeFailureCategory

-- `prediction.upper()`, where another text is a number.
pub data Prediction : Type 0 where
  malicious zero_day unknown : Prediction
  other_label : ℕ → Prediction

pub data EventType : Type 0 where
  system_audit target_status_changed high_risk_enrichment : EventType
  zero_day_detected scan_completed : EventType

pub data EventSeverity : Type 0 where
  info low medium high critical : EventSeverity

pub data Subtype : Type 0 where
  ssrf_outbound_probe_blocked monitoring_target_suspended monitoring_target_unreachable : Subtype
  monitoring_threat_malicious monitoring_threat_suspicious monitoring_zero_day_hypothesis : Subtype
  monitoring_inference_degraded monitoring_routine_benign : Subtype

pub record Outcome : Type 0 where
  pub event_type : EventType
  pub severity : EventSeverity
  pub subtype : Subtype
  pub is_suspension : Bool
  pub new_failures : ℕ

abbrev pub max_consecutive_failures : ℕ
max_consecutive_failures = 5

abbrev pub max_backoff_minutes : ℕ
max_backoff_minutes = 1440

abbrev pub is_ssrf : Option ProbeFailureCategory → Bool
is_ssrf (some ssrf_blocked) = true
is_ssrf _ = false

outcome : EventType → EventSeverity → Subtype → Bool → ℕ → Outcome
outcome t v k s n = record {
  event_type = t;
  severity = v;
  subtype = k;
  is_suspension = s;
  new_failures = n;
}

-- A successful probe.
abbrev pub classify_prediction : Prediction → ℕ → EventType × EventSeverity × Subtype
classify_prediction malicious c =
    if leb 8500 c
    then (high_risk_enrichment, critical, monitoring_threat_malicious)
    else if leb 6000 c
    then (high_risk_enrichment, high, monitoring_threat_suspicious)
    else (scan_completed, info, monitoring_routine_benign)
classify_prediction zero_day c = (zero_day_detected, critical, monitoring_zero_day_hypothesis)
classify_prediction unknown c = (system_audit, low, monitoring_inference_degraded)
classify_prediction (other_label n) c = (scan_completed, info, monitoring_routine_benign)

unfoldable pub classify_outcome : ProbeResult → Prediction → ℕ → ℕ → Outcome
unfolding outcome
classify_outcome p prediction confidence current_failures =
    let new_fails = current_failures + 1 in
    if is_ssrf p.failure_category
    then outcome system_audit critical ssrf_outbound_probe_blocked true new_fails
    else if not p.success
    then (if leb max_consecutive_failures new_fails
        then outcome target_status_changed medium monitoring_target_suspended true new_fails
        else outcome target_status_changed low monitoring_target_unreachable false new_fails)
    else (let (t, v, k) = classify_prediction prediction confidence in outcome t v k false 0)

-- The minutes to the next check: doubled for each failure up to five, and at most a day.
unfoldable pub effective_interval : ℕ → Outcome → ℕ
effective_interval minutes o =
    if ltb 0 o.new_failures && not o.is_suspension
    then min (minutes * 2 ^ min o.new_failures 5) max_backoff_minutes
    else minutes

pub data AuditAction : Type 0 where
  target_auto_suspended target_ssrf_aborted monitoring_check_executed : AuditAction

abbrev pub audit_action : Subtype → AuditAction
audit_action monitoring_target_suspended = target_auto_suspended
audit_action ssrf_outbound_probe_blocked = target_ssrf_aborted
audit_action _ = monitoring_check_executed

pub record CheckAudit : Type 0 where
  pub action : AuditAction
  pub actor_user_id : ℕ
  pub target_id : ℕ
  pub consecutive_failures : ℕ
  pub is_active : Bool
  pub created_at : ℕ

pub record Store : Type 0 where
  pub db : Db
  pub audits : List CheckAudit
  pub suspension_notices : List ℕ

-- `clock` is the database's at the write-back, `now_dt` the worker's. A check
-- without a probe's success or an inference in time has the prediction unknown with confidence 0. `pipeline_raises`: an error of the correlation's, the alert's or the
-- incident's transaction. `notified`: the suspension notice could be enqueued.
pub record Observation : Type 0 where
  pub probe : ProbeResult
  pub prediction : Prediction
  pub confidence : ℕ
  pub label : ℕ
  pub clock : ℕ
  pub now_dt : ℕ
  pub pipeline_raises : Bool
  pub notified : Bool

-- Step 3: the lease, and the failures counted so far.
unfoldable pub pre_check : ℕ → ClaimedTarget → Db → Option ℕ
pre_check now t db =
    if validate_lease now t.target_id t.execution_token t.execution_epoch db
    then some (elim (row_of (λ x. x.ident) t.target_id db.monitoring_targets) [
      | none ↦ 0
      | some x ↦ x.consecutive_failures
    ])
    else none

abbrev pub report : Observation → ClaimedTarget → Outcome → Report
report v t o = record {
  target_id = t.target_id;
  execution_token = t.execution_token;
  execution_epoch = t.execution_epoch;
  last_checked_at = v.now_dt;
  interval_minutes = effective_interval t.check_interval_minutes o;
  last_prediction = v.label;
  last_confidence = v.confidence;
  consecutive_failures = o.new_failures;
}

-- `UPDATE monitoring_targets SET is_active = false WHERE id = :target_id`
abbrev pub deactivate : ℕ → List MonitoringTarget → List MonitoringTarget
deactivate i ts = update (λ x. x.ident == i) (λ x. record x { is_active = false }) ts

-- Steps 11 and 12.
unfoldable pub settle : Observation → ClaimedTarget → Outcome → Store → Store × Bool
settle v t o s =
    let (db, written) = write_back_result v.clock (report v t o) s.db in
    let suspended =
      if o.is_suspension
      then record db { monitoring_targets = deactivate t.target_id db.monitoring_targets }
      else db in
    let audited : CheckAudit = record {
      action = audit_action o.subtype;
      actor_user_id = t.user_id;
      target_id = t.target_id;
      consecutive_failures = o.new_failures;
      is_active = not o.is_suspension;
      created_at = v.now_dt;
    } in
    if written
    then (
      record {
        db = suspended;
        audits = s.audits ++ audited ∷ [];
        suspension_notices =
            s.suspension_notices
            ++ (if o.is_suspension && v.notified then t.target_id ∷ [] else []);
      },
      true,
    )
    else (s, false)

-- A check that started with `failures` counted; an error ends it before the write-back.
unfoldable pub finish_check : Observation → ClaimedTarget → ℕ → Store → Store × Bool
unfolding settle
finish_check v t failures s =
    if v.pipeline_raises
    then (s, false)
    else settle v t (classify_outcome v.probe v.prediction v.confidence failures) s
