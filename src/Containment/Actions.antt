-- ===== src/Containment/Actions.antt =====
-- _do_execute_action: one containment action. A call runs alone: the waiting for a concurrent insertion
-- of the same key is left out.
pub mod Rule0
pub mod Identity
use ai_cyber_security_suite.Prelude.{
  ℕ, ◌+◌, ◌*◌, max, Bool, true, false, ◌||◌, ◌&&◌, Option, none, some, List, [], ◌∷◌, ◌++◌,
  if◌then◌else◌, ◌==◌, sql_eq, find, keep, update,
}
use ai_cyber_security_suite.Alerts.Model.{Alert}
use ai_cyber_security_suite.Incidents.Threats.{Threat, get_or_create_threat_incident}
use ai_cyber_security_suite.Containment.Model.{
  ActionType, blacklist_indicator, invalidate_cache, quarantine_target, create_incident,
  emit_soc_event, send_notification, ActionStatus, executed, failed, blocked_by_allowlist, skipped,
  Action, BlacklistEntry, ErrorMessage, auto_quarantined, Target, AggregateId, of_alert,
  of_indicator, SocEvent, containment_applied, AuditAction, blocked, action_ended, Tables,
}
use ai_cyber_security_suite.Containment.Allowlist.{Urls, is_whitelisted}
use ai_cyber_security_suite.Containment.Policies.{get_or_create_policy}

-- The arguments of execute_action but the reason and the trigger, and the texts that are made of them:
-- the title of an incident by the alert's, and its description.
pub record Request : Type 0 where
  pub now : ℕ
  pub action_type : ActionType
  pub target_identifier : ℕ
  pub tenant_id : ℕ
  pub alert_id : Option ℕ
  pub run_id : Option ℕ
  pub actor_user_id : Option ℕ
  pub incident_title : ℕ → ℕ
  pub incident_text : ℕ

abbrev pub same_type : ActionType → ActionType → Bool
same_type blacklist_indicator blacklist_indicator = true
same_type invalidate_cache invalidate_cache = true
same_type quarantine_target quarantine_target = true
same_type create_incident create_incident = true
same_type emit_soc_event emit_soc_event = true
same_type send_notification send_notification = true
same_type _ _ = false

-- `alert_id or 'none'` in the key, for an id above 0.
abbrev pub same_alert : Option ℕ → Option ℕ → Bool
same_alert none none = true
same_alert (some a) (some b) = a == b
same_alert _ _ = false

-- `action_idempotency_key == ...`
abbrev pub has_key : Request → Action → Bool
has_key r a =
    a.tenant_id == r.tenant_id
    && (same_alert a.alert_id r.alert_id
        && (same_type a.action_type r.action_type && a.target_identifier == r.target_identifier))

-- What the branch of an action's type writes into the action's row.
pub record Outcome : Type 0 where
  pub status : ActionStatus
  pub incident_id : Option ℕ
  pub quarantined : Option ℕ

abbrev pub plain : ActionStatus → Outcome
plain s = record { status = s; incident_id = none; quarantined = none }

-- `scalar_one_or_none`, which raises on several rows.
pub data Lookup {ℓ} (A : Type ℓ) : Type ℓ where
  absent several : Lookup A
  one : A → Lookup A

abbrev pub one_or_none {ℓ} : {A : Type ℓ} → List A → Lookup A
one_or_none [] = absent
one_or_none (x ∷ []) = one x
one_or_none (x ∷ y ∷ xs) = several

-- The audit row of an action that reaches the end of its branch.
abbrev pub ended : Request → ℕ → Tables → Tables
ended r uuid t = record t {
  audits =
      t.audits
      ++ record {
        action = action_ended executed;
        actor_user_id = r.actor_user_id;
        resource_id = uuid;
      }
        ∷ [];
}

abbrev pub listed : Request → BlacklistEntry → Bool
listed r e = e.tenant_id == r.tenant_id && (e.indicator_value == r.target_identifier && e.is_active)

abbrev pub expiry : Request → ℕ → ℕ
expiry r ttl = r.now + ttl * 1000000

abbrev pub extended : Request → ℕ → BlacklistEntry → BlacklistEntry
extended r ttl e = record e { expires_at = max e.expires_at (expiry r ttl); updated_at = r.now }

abbrev pub new_entry : Request → ℕ → ℕ → ℕ → BlacklistEntry
new_entry r ident ttl n = record {
  ident = n;
  indicator_value = r.target_identifier;
  tenant_id = r.tenant_id;
  containment_action_id = some ident;
  is_active = true;
  expires_at = expiry r ttl;
  updated_at = r.now;
}

-- The branch of BLACKLIST_INDICATOR behind Rule 0, for the row that is found.
abbrev pub blacklist : Request → ℕ → ℕ → Tables → Lookup BlacklistEntry → Tables × Outcome
blacklist r ident ttl t absent = (
  record t { blacklist = t.blacklist ++ new_entry r ident ttl t.next ∷ []; next = t.next + 1 },
  plain executed,
)
blacklist r ident ttl t (one e) = (
  record t { blacklist = update (λ x. x.ident == e.ident) (extended r ttl) t.blacklist },
  plain executed,
)
blacklist r ident ttl t several = (t, plain failed)

abbrev pub is_meant : Request → Target → Bool
is_meant r g =
    g.user_id == r.tenant_id
    && (g.target_uuid == r.target_identifier
        || (g.url == r.target_identifier || g.normalized_domain == r.target_identifier))

abbrev pub quarantine : ℕ → Target → Target
quarantine uuid g = record g {
  is_active = false;
  last_error_message = some (auto_quarantined uuid);
}

-- The branch of QUARANTINE_TARGET behind Rule 0.
abbrev pub quarantine_found : Request → ℕ → Tables → Lookup Target → Tables × Outcome
quarantine_found r uuid t absent = (t, plain failed)
quarantine_found r uuid t several = (t, plain failed)
quarantine_found r uuid t (one g) =
    if g.is_active
    then (
      record t { targets = update (λ x. x.ident == g.ident) (quarantine uuid) t.targets },
      record { status = executed; incident_id = none; quarantined = some g.ident },
    )
    else (t, plain skipped)

abbrev pub threat_of : Request → Alert → ℕ → Threat
threat_of r a n = record {
  user_id = some r.tenant_id;
  title = r.incident_title a.title;
  severity = a.severity;
  description = some r.incident_text;
  default_text = r.incident_text;
  initial_alert_id = some a.ident;
  ident = n;
  uuid = n + 1;
  now = r.now;
}

abbrev pub incident_executed : Option ℕ → Outcome
incident_executed n = record { status = executed; incident_id = n; quarantined = none }

-- The branch of CREATE_INCIDENT, for the tenant's alert, and for the incident the alert has.
abbrev pub bind_incident : Request → Tables → Alert → Option ℕ → Tables × Outcome
bind_incident r t a (some n) = (t, incident_executed (some n))
bind_incident r t a none =
    let made = get_or_create_threat_incident (threat_of r a t.next) t.soc in
    (record t { soc = made.0; next = t.next + 2 }, incident_executed (some made.1.ident))

abbrev pub incident_of : Request → Tables → Option Alert → Tables × Outcome
incident_of r t none = (t, incident_executed none)
incident_of r t (some a) = bind_incident r t a a.incident_id

abbrev pub alert_of : Request → Option ℕ → Tables → Option Alert
alert_of r none t = none
alert_of r (some n) t = find (λ a. a.ident == n && sql_eq a.user_id r.tenant_id) t.soc.alerts

abbrev pub aggregate : Request → Option ℕ → AggregateId
aggregate r (some n) = of_alert n
aggregate r none = of_indicator r.target_identifier

abbrev pub applied : Request → ℕ → SocEvent
applied r n = record {
  event_id = n;
  tenant_id = r.tenant_id;
  event_type = containment_applied;
  aggregate_id = aggregate r r.alert_id;
}

-- Step 2, by the type of the action. The cache is not part of the tables, and the notification service
-- has no create_in_app_notification, so that its call raises and is logged.
abbrev pub perform_as : Request → ℕ → ℕ → ActionType → Tables → Tables × Outcome
perform_as r ident uuid blacklist_indicator t =
    let (t1, p) = get_or_create_policy r.tenant_id t in
    blacklist r ident p.blacklist_ttl_seconds t1 (one_or_none (keep (listed r) t1.blacklist))
perform_as r ident uuid invalidate_cache t = (t, plain executed)
perform_as r ident uuid quarantine_target t =
    quarantine_found r uuid t (one_or_none (keep (is_meant r) t.targets))
perform_as r ident uuid create_incident t = incident_of r t (alert_of r r.alert_id t)
perform_as r ident uuid emit_soc_event t =
    (record t { events = t.events ++ applied r t.next ∷ []; next = t.next + 1 }, plain executed)
perform_as r ident uuid send_notification t = (t, plain executed)

-- A failed or skipped action is not audited.
abbrev pub audited : Request → ℕ → ActionStatus → Tables → Tables
audited r uuid executed t = ended r uuid t
audited r uuid _ t = t

abbrev pub fenced_type : ActionType → Bool
fenced_type blacklist_indicator = true
fenced_type quarantine_target = true
fenced_type _ = false

abbrev pub block : Request → Tables → Tables × Outcome
block r t = (
  record t {
    audits =
        t.audits
        ++ record {
          action = blocked;
          actor_user_id = r.actor_user_id;
          resource_id = r.target_identifier;
        }
          ∷ [];
  },
  plain blocked_by_allowlist,
)

abbrev pub finish : Request → ℕ → Tables × Outcome → Tables × Outcome
finish r uuid (t, o) = (audited r uuid o.status t, o)

-- Steps 1 and 2.
unfoldable pub perform : Urls → Request → ℕ → ℕ → Tables → Tables × Outcome
unfolding get_or_create_policy get_or_create_threat_incident is_whitelisted
perform u r ident uuid t =
    if fenced_type r.action_type && is_whitelisted u r.target_identifier
    then block r t
    else finish r uuid (perform_as r ident uuid r.action_type t)

abbrev pub action_row : Request → ℕ → ℕ → Outcome → Action
action_row r ident uuid o = record {
  ident = ident;
  action_uuid = uuid;
  run_id = r.run_id;
  tenant_id = r.tenant_id;
  alert_id = r.alert_id;
  incident_id = o.incident_id;
  target_identifier = r.target_identifier;
  action_type = r.action_type;
  status = o.status;
  actor_user_id = r.actor_user_id;
  quarantined = o.quarantined;
  completed_at = some r.now;
  reverted_at = none;
  reverted_by_user_id = none;
}

abbrev pub recorded : Request → ℕ → Tables × Outcome → Tables × Action
recorded r n (t, o) =
    let a = action_row r n (n + 1) o in (record t { actions = t.actions ++ a ∷ [] }, a)

abbrev pub unless_done : Urls → Request → Tables → Option Action → Tables × Action
unless_done u r t (some a) = (t, a)
unless_done u r t none =
    let n = t.next in recorded r n (perform u r n (n + 1) (record t { next = n + 2 }))

unfoldable pub execute_action : Urls → Request → Tables → Tables × Action
unfolding perform
execute_action u r t = unless_done u r t (find (has_key r) t.actions)
