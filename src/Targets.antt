-- ===== src/Targets.antt =====
-- Monitoring targets as their owners see them, backend/services/monitoring_service.py. Instants are
-- microseconds; the checks of a URL and its canonical domain are third-party code, so that their results
-- are arguments.
pub mod Quota
pub mod Leases
mod Examples
use ai_cyber_security_suite.Prelude.{
  ℕ, ◌+◌, ◌*◌, Bool, true, false, not, ◌||◌, ◌&&◌, Option, none, some, List, [], ◌∷◌, ◌++◌,
  if◌then◌else◌, leb, ltb, ◌==◌, sql_lt, sql_gt, is_none, get_or, find, keep, length, update,
}
use ai_cyber_security_suite.Alerts.Model.{User}
use ai_cyber_security_suite.Scheduler.State.{
  Dialect, sqlite, postgresql, other, MonitoringTarget, seconds, ClaimedTarget,
}

-- A row of `monitoring_targets`, with the uuid that its users name it by.
pub record Target : Type 0 where
  pub target_uuid : ℕ
  pub row : MonitoringTarget

pub data TargetAction : Type 0 where
  target_created target_updated target_deleted target_paused : TargetAction
  target_resumed target_reactivated check_now_requested : TargetAction

-- A row of `audit_events` on the resource "monitoring_targets".
pub record TargetAudit : Type 0 where
  pub action : TargetAction
  pub actor_user_id : ℕ
  pub resource_id : ℕ

pub record Registry : Type 0 where
  pub targets : List Target
  pub audits : List TargetAudit

-- MonitorNotFoundError, MonitorLimitExceededError, MonitorSSRFError, MonitorValidationError,
-- MonitorTargetSuspendedError, MonitorLeaseConflictError
pub data TargetError : Type 0 where
  target_not_found limit_exceeded ssrf_refused target_is_paused : TargetError
  target_suspended lease_conflict : TargetError

pub data TargetReply : Type 0 where
  target_is : Target → TargetReply
  refused : TargetError → TargetReply

-- MAX_TARGETS_STANDARD_USER and MAX_TARGETS_ADMIN, where the environment sets neither.
abbrev pub get_user_target_quota : User → ℕ
get_user_target_quota u = if u.is_admin then 500 else 20

abbrev pub is_active_of : ℕ → Target → Bool
is_active_of user g = g.row.user_id == user && g.row.is_active

abbrev pub active_count : ℕ → List Target → ℕ
active_count user ts = length (keep (is_active_of user) ts)

-- What a registration is given: the drawn id and uuid, and the canonical domain.
pub record Registration : Type 0 where
  pub now : ℕ
  pub ident : ℕ
  pub uuid : ℕ
  pub url : ℕ
  pub url_is_safe : Bool
  pub domain : ℕ
  pub check_interval_minutes : ℕ

abbrev pub new_target : User → Registration → Target
new_target u d = record {
  target_uuid = d.uuid;
  row = record {
    ident = d.ident;
    url = d.url;
    normalized_domain = d.domain;
    check_interval_minutes = d.check_interval_minutes;
    is_active = true;
    last_checked_at = none;
    next_check_at = d.now;
    last_prediction = none;
    last_confidence = none;
    consecutive_failures = 0;
    execution_token = none;
    execution_epoch = none;
    execution_expires_at = none;
    user_id = u.ident;
  };
}

abbrev pub target_audit : TargetAction → User → ℕ → TargetAudit
target_audit action u uuid = record { action = action; actor_user_id = u.ident; resource_id = uuid }

unfoldable pub register_target : User → Registration → Registry → Registry × TargetReply
register_target u d s =
    if not d.url_is_safe
    then (s, refused ssrf_refused)
    else if leb (get_user_target_quota u) (active_count u.ident s.targets)
    then (s, refused limit_exceeded)
    else (
      record {
        targets = s.targets ++ new_target u d ∷ [];
        audits = s.audits ++ target_audit target_created u d.uuid ∷ [];
      },
      target_is (new_target u d),
    )

abbrev pub reaches : User → ℕ → Target → Bool
reaches u uuid g = g.target_uuid == uuid && (u.is_admin || g.row.user_id == u.ident)

unfoldable pub get_target_by_uuid : User → ℕ → List Target → Option Target
get_target_by_uuid u uuid ts = find (reaches u uuid) ts

-- What an operation makes of the target that it is given.
pub data Change : Type 0 where
  refuse : TargetError → Change
  leave : Change
  save : TargetAction → MonitoringTarget → Change

abbrev pub carried_out : User → Registry → Target → Change → Registry × TargetReply
carried_out u s g (refuse e) = (s, refused e)
carried_out u s g leave = (s, target_is g)
carried_out u s g (save action r) = (
  record {
    targets = update (λ x. x.target_uuid == g.target_uuid) (λ x. record x { row = r }) s.targets;
    audits = s.audits ++ target_audit action u g.target_uuid ∷ [];
  },
  target_is (record g { row = r }),
)

abbrev pub on_found :
    User → (MonitoringTarget → Change) → Registry → Option Target → Registry × TargetReply
on_found u change s none = (s, refused target_not_found)
on_found u change s (some g) = carried_out u s g (change g.row)

abbrev pub on_target : User → ℕ → (MonitoringTarget → Change) → Registry → Registry × TargetReply
on_target u uuid change s = on_found u change s (get_target_by_uuid u uuid s.targets)

abbrev pub activated : ℕ → MonitoringTarget → MonitoringTarget
activated now r = record r { is_active = true; next_check_at = now }

-- MonitoringTargetUpdate
abbrev pub set_active : ℕ → Option Bool → MonitoringTarget → MonitoringTarget
set_active now none r = r
set_active now (some true) r = if r.is_active then r else activated now r
set_active now (some false) r = record r { is_active = false }

abbrev pub update_change : ℕ → Option ℕ → Option Bool → MonitoringTarget → Change
update_change now none none r = leave
update_change now none (some b) r = save target_updated (set_active now (some b) r)
update_change now (some n) active r =
    save target_updated (set_active now active (record r { check_interval_minutes = n }))

abbrev pub is_suspended : MonitoringTarget → Bool
is_suspended r = leb 5 r.consecutive_failures && not r.is_active

abbrev pub pause_change : MonitoringTarget → Change
pause_change r =
    if is_suspended r
    then refuse target_suspended
    else save target_paused (record r { is_active = false })

abbrev pub resume_change : ℕ → MonitoringTarget → Change
resume_change now r =
    if leb 5 r.consecutive_failures
    then refuse target_suspended
    else save target_resumed (activated now r)

unfoldable pub update_target :
    ℕ → User → ℕ → Option ℕ → Option Bool → Registry → Registry × TargetReply
unfolding get_target_by_uuid
update_target now u uuid interval active s = on_target u uuid (update_change now interval active) s

unfoldable pub delete_target : User → ℕ → Registry → Registry × TargetReply
unfolding get_target_by_uuid
delete_target u uuid s =
    on_target u uuid (λ r. save target_deleted (record r { is_active = false })) s

unfoldable pub pause_target : User → ℕ → Registry → Registry × TargetReply
unfolding get_target_by_uuid
pause_target u uuid s = on_target u uuid pause_change s

unfoldable pub resume_target : ℕ → User → ℕ → Registry → Registry × TargetReply
unfolding get_target_by_uuid
resume_target now u uuid s = on_target u uuid (resume_change now) s

unfoldable pub reactivate_target : ℕ → User → ℕ → Registry → Registry × TargetReply
unfolding get_target_by_uuid
reactivate_target now u uuid s =
    on_target u uuid
      (λ r. save target_reactivated (record (activated now r) { consecutive_failures = 0 })) s

-- `execution_token IS NULL OR execution_expires_at < now`
abbrev pub is_free : ℕ → MonitoringTarget → Bool
is_free now r = is_none r.execution_token || sql_lt r.execution_expires_at now

abbrev pub leased : ℕ → ℕ → ℕ → ℕ → MonitoringTarget → MonitoringTarget
leased now lease_seconds token epoch r = record r {
  execution_token = some token;
  execution_epoch = some epoch;
  execution_expires_at = some (now + seconds lease_seconds);
}

-- The SELECT that SQLite does before its UPDATE.
abbrev pub in_flight : ℕ → MonitoringTarget → Bool
in_flight now r = not (is_none r.execution_token) && sql_gt r.execution_expires_at now

abbrev pub claim_lease : Dialect → ℕ → MonitoringTarget → Bool
claim_lease postgresql now r = r.is_active && is_free now r
claim_lease sqlite now r = not (in_flight now r) && (r.is_active && is_free now r)
claim_lease other now r = not (in_flight now r) && (r.is_active && is_free now r)

unfoldable pub check_change : Dialect → ℕ → ℕ → ℕ → ℕ → MonitoringTarget → Change
check_change d now lease_seconds token epoch r =
    if not r.is_active
    then (if leb 5 r.consecutive_failures then refuse target_suspended else refuse target_is_paused)
    else if claim_lease d now r
    then save check_now_requested (leased now lease_seconds token epoch r)
    else refuse lease_conflict

-- The epoch is 1 where scheduler_state has no row.
unfoldable pub trigger_check_now :
    Dialect → ℕ → ℕ → User → ℕ → ℕ → Option ℕ → Registry → Registry × TargetReply
unfolding get_target_by_uuid check_change
trigger_check_now d now lease_seconds u uuid token current_epoch s =
    on_target u uuid (check_change d now lease_seconds token (get_or current_epoch 1)) s
