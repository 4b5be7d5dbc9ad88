-- ===== src/Lib.antt =====
-- The security operations back end of AI-Cyber-Security-Suite (backend/): the multi-pod scheduler
-- with the engine and the workers around it, the guarded network probe, alerts with their ingestion,
-- correlation and triage, incidents, the containment of threats, the event broadcaster, the webhook
-- dispatcher, the registry of models, and the pruning of old rows.
--
-- The parts and how they interact. Users register monitoring targets and control them (Targets).
-- The engine of each pod takes part in elections, and as the leader claims due monitoring targets
-- (Scheduler, Engine) and hands them to workers, which probe them and write the results back under
-- the lease of the claim (Worker). A probe validates each URL of a redirect chain and each address that
-- it connects to (Probe, Network). Security events are correlated with recent alerts (Correlation) and
-- join an alert of their kind or become alerts, which analysts triage; a triage writes an audit event,
-- and both write a row of soc_event_stream and publish the event (Alerts). Incidents
-- group the alerts of one threat (Incidents). Alerts also make containment playbooks run, which
-- blacklist indicators, quarantine targets and make incidents, and whose actions can be reverted
-- (Containment). The broadcaster delivers published events to the bounded queues of the connected
-- clients and replays the stored rows to clients that reconnect (Broadcaster). Alerts and suspended
-- targets make notifications, and rows of an outbox (Notifications). Notifications to webhooks wait
-- in an outbox that dispatcher pods claim and deliver (Dispatcher). The retention worker deletes
-- old rows of the stream, the outbox and the containment tables (Retention).
--
-- Scheduler: backend/services/scheduler_service.py.
--   State: the rows scheduler_state and monitoring_targets of backend/database/models.py.
--   Election: attempt_election, renew_lease, release_leadership, ensure_scheduler_state_row.
--   Claims: claim_targets on PostgreSQL and on SQLite. WriteBack: write_back_result, and
--   validate_lease of backend/services/monitoring_worker.py. Service: any sequence of these calls.
-- Dispatcher: backend/services/notification_dispatcher.py.
--   Outbox: _claim_jobs_sync. Breaker: _increment_circuit_breaker and the reset of its counter.
--   Delivery: _dispatch_job and the three _record_job_ methods. History: claims and dispatches of any
--   pods in any order. Tick: tick, a claim with its dispatches.
-- Broadcaster: backend/services/event_broadcaster.py.
--   Envelope: SSEEventEnvelope of backend/schemas/stream.py and _is_critical_event. Queue:
--   _enqueue_to_stream_queue. Dispatch: _dispatch_to_local_queues, _dispatch_to_admin_queues. Replay:
--   get_replay_events. Tickets: create_stream_ticket and validate_and_burn_stream_ticket. Listeners:
--   register_listener and unregister_listener.
-- Alerts: backend/services/alert_service.py.
--   Model: the tables, and ALERT_STATUS_TRANSITIONS of backend/schemas/alerts.py. Triage:
--   acknowledge_alert, resolve_alert, dismiss_alert, reopen_alert and _lock_and_get_alert. Ingestion:
--   process_event and compute_fingerprint, with sequences of events in its Calls, Totals and Bursts.
-- Engine: backend/services/monitoring_engine.py.
--   Engine: start, stop and _cycle_step, on the scheduler's model. Cycles: cycles of one engine between
--   calls of other pods.
-- Worker: backend/services/monitoring_worker.py.
--   Worker: _classify_outcome, the lease check before a check and its end in _execute_target_inner; the
--   result type of backend/services/monitoring_probe.py. Checks: the fence, and sequences of checks.
-- Incidents: backend/services/incident_service.py.
--   Model: the tables, the transitions of backend/schemas/soc.py, get_incident. Editing: update_incident.
--   Linking: attach_alerts, detach_alert, create_incident. Threats: get_or_create_threat_incident.
-- Containment: backend/services/containment_service.py.
--   Model: the tables. Allowlist: is_whitelisted, with backend/services/threat_intel.py. Policies:
--   get_or_create_policy, update_policy. Actions: execute_action. Playbooks: execute_playbook,
--   and evaluate_alert_containment in its Evaluation. Rollback: revert_action. Boundary: sequences of all these calls.
-- Retention: backend/services/retention_worker.py.
--   Retention: run_once and the loop in batches of its four methods.
-- Targets: backend/services/monitoring_service.py.
--   Targets: register_target, get_target_by_uuid, the updates and controls of a target, and
--   trigger_check_now, on the rows of Scheduler. Quota: the limit on active targets. Leases: on-demand
--   checks beside the scheduler's claims.
-- Notifications: backend/services/notification_service.py.
--   Notifications: preferences, mark_as_read and mark_all_as_read, create_in_app_and_outbox_for_alert
--   and create_target_suspension_notification. Settings: update_preferences. Keys: sequences of
--   productions.
-- Network: backend/core/security_network.py.
--   Network: the blocked networks and is_blocked_ip. Ranges: the networks by octets. Hosts:
--   resolve_and_validate_host. Urls: validate_target_url. Names: sanitize_domain_for_whois.
-- Probe: backend/services/monitoring_probe.py.
--   Syntax: _validate_url_syntax and _is_octal_ip. Probe: probe, _probe_inner and
--   _resolve_and_pin_host. Body: the limit on a response. Hops, Chains: one hop, and whole probes.
-- Correlation: backend/services/correlation_engine.py.
--   Correlation: compute_correlation_score and correlate_event. Matches: what a score means.
-- Lifecycle: backend/services/model_lifecycle.py.
--   Lifecycle: promote_candidate_to_registry, execute_model_rollback and coordinate_model_reload.
--   Champions: sequences of promotions and rollbacks. Recovery: where a rollback leads, and the reload.
--
-- Prelude holds what these share: Boolean tests, SQL's comparisons with NULL, lists, tables as lists of
-- rows with SELECT and UPDATE, and rows found by a key.
--
-- Numbers and bounds. Counters, cursors, ids and epochs are natural numbers without an upper bound,
-- as Python's integers are; an instant is a number of microseconds. Every function is by structural
-- recursion on a list, so that every operation returns, but for the pruning of a table, which takes
-- fuel: one round more than the table has rows, which is enough, since a round that does not end the
-- loop deletes rows; a probe recurs on the four rounds of the source's loop. The batch sizes, lease times, attempt and breaker limits are
-- the source's constants or arguments.
--
-- Transactions. One operation is one committed transaction on the tables it is given, but for
-- create_incident, which commits before it attaches alerts; rows that another transaction holds are
-- an argument (SKIP LOCKED), as is the PostgreSQL advisory lock, whose documented laws are
-- hypotheses where they are needed. Sequences of operations, by any pods and at any times, are
-- lists of calls. What Redis counts or answers is an argument of an operation, and a read and a delete of
-- a ticket are one step.
--
-- Not modelled: faults of the database and of Redis, the asyncio loops that repeat the operations,
-- logging and metrics, the HMAC signature and the HTTP transport (the dispatcher's replies are
-- arguments), the order of the correlation and alert pipeline inside a check, case folding, stripping
-- and the parsing of URLs and addresses (arguments, or done before), the resolver, the lock file of the
-- model registry, the prediction models, and the web and extension front ends.
pub mod Prelude
pub mod Alerts
pub mod Broadcaster
pub mod Containment
pub mod Correlation
pub mod Dispatcher
pub mod Engine
pub mod Incidents
pub mod Lifecycle
pub mod Network
pub mod Notifications
pub mod Probe
pub mod Retention
pub mod Scheduler
pub mod Targets
pub mod Worker
