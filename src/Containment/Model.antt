-- ===== src/Containment/Model.antt =====
-- The tables of threat containment (backend/database/models.py, backend/schemas/containment.py).
-- Instants are microseconds. Indicators, urls, domains and uuids are numbers that stand for their
-- texts; ids and uuids are drawn from one sequence, which stands for those of the database.
use ai_cyber_security_suite.Prelude.{ℕ, Bool, Option, List}
use ai_cyber_security_suite.Broadcaster.Envelope.{Severity}
use ai_cyber_security_suite.Incidents.Model.{Store}

pub data ActionType : Type 0 where
  blacklist_indicator invalidate_cache quarantine_target : ActionType
  create_incident emit_soc_event send_notification : ActionType

pub data ActionStatus : Type 0 where
  pending executed failed blocked_by_allowlist skipped reverted : ActionStatus

pub data RunStatus : Type 0 where
  pending running completed failed partially_reverted reverted : RunStatus

-- A row of `soc_containment_policies`.
pub record Policy : Type 0 where
  pub tenant_id : ℕ
  pub auto_containment_enabled : Bool
  pub auto_blacklist_enabled : Bool
  pub auto_quarantine_enabled : Bool
  pub auto_incident_binding_enabled : Bool
  pub containment_min_severity : Severity
  pub blacklist_ttl_seconds : ℕ
  pub policy_version : ℕ
  pub updated_by : Option ℕ

pub data PlaybookName : Type 0 where
  critical_threat_auto_containment repeated_target_compromise_quarantine : PlaybookName
  manual_containment : PlaybookName
  other_playbook : ℕ → PlaybookName

-- A row of `soc_playbook_runs`. Its idempotency key is made of its tenant, alert and playbook.
pub record PlaybookRun : Type 0 where
  pub ident : ℕ
  pub run_uuid : ℕ
  pub playbook_name : PlaybookName
  pub tenant_id : ℕ
  pub alert_id : Option ℕ
  pub target_id : Option ℕ
  pub status : RunStatus
  pub fencing_token : ℕ
  pub action_count : ℕ
  pub started_at : ℕ
  pub completed_at : Option ℕ

-- A row of `soc_containment_actions`. Its idempotency key is made of its tenant, alert, type and target
-- identifier; `quarantined` is the target's id in `rollback_metadata`.
pub record Action : Type 0 where
  pub ident : ℕ
  pub action_uuid : ℕ
  pub run_id : Option ℕ
  pub tenant_id : ℕ
  pub alert_id : Option ℕ
  pub incident_id : Option ℕ
  pub target_identifier : ℕ
  pub action_type : ActionType
  pub status : ActionStatus
  pub actor_user_id : Option ℕ
  pub quarantined : Option ℕ
  pub completed_at : Option ℕ
  pub reverted_at : Option ℕ
  pub reverted_by_user_id : Option ℕ

-- A row of `soc_dynamic_blacklist`.
pub record BlacklistEntry : Type 0 where
  pub ident : ℕ
  pub indicator_value : ℕ
  pub tenant_id : ℕ
  pub containment_action_id : Option ℕ
  pub is_active : Bool
  pub expires_at : ℕ
  pub updated_at : ℕ

-- `last_error_message`: the note of a quarantine, which names its action's uuid, or another text.
pub data ErrorMessage : Type 0 where
  auto_quarantined other_error : ℕ → ErrorMessage

-- A row of `monitoring_targets`: the columns that containment uses.
pub record Target : Type 0 where
  pub ident : ℕ
  pub target_uuid : ℕ
  pub url : ℕ
  pub normalized_domain : ℕ
  pub user_id : ℕ
  pub is_active : Bool
  pub last_error_message : Option ErrorMessage

pub data EventType : Type 0 where
  containment_applied containment_reverted : EventType
  playbook_triggered playbook_completed playbook_failed : EventType

-- `aggregate_id`, by what the text spells.
pub data AggregateId : Type 0 where
  of_alert of_indicator of_uuid : ℕ → AggregateId

-- A row of `soc_event_stream`.
pub record SocEvent : Type 0 where
  pub event_id : ℕ
  pub tenant_id : ℕ
  pub event_type : EventType
  pub aggregate_id : AggregateId

pub data AuditAction : Type 0 where
  policy_updated blocked action_reverted : AuditAction
  action_ended : ActionStatus → AuditAction

-- A row of `audit_events`.
pub record AuditEvent : Type 0 where
  pub action : AuditAction
  pub actor_user_id : Option ℕ
  pub resource_id : ℕ

pub record Tables : Type 0 where
  pub policies : List Policy
  pub runs : List PlaybookRun
  pub actions : List Action
  pub blacklist : List BlacklistEntry
  pub targets : List Target
  pub soc : Store
  pub events : List SocEvent
  pub audits : List AuditEvent
  -- The next id or uuid.
  pub next : ℕ
