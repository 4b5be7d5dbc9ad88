-- ===== src/Containment/Rollback.antt =====
-- revert_action.
pub mod Provenance
pub mod RoundTrip
use ai_cyber_security_suite.Prelude.{
  ℕ, ◌+◌, Bool, true, false, not, ◌||◌, ◌&&◌, Option, none, some, List, [], ◌∷◌, ◌++◌,
  if◌then◌else◌, ◌==◌, sql_eq, find, update,
}
use ai_cyber_security_suite.Alerts.Model.{User}
use ai_cyber_security_suite.Containment.Model.{
  ActionType, blacklist_indicator, quarantine_target, ActionStatus, Action, BlacklistEntry,
  ErrorMessage, auto_quarantined, other_error, Target, of_uuid, containment_reverted,
  action_reverted, Tables,
}

-- The 404 and the 400, and the action as it is after the call.
pub data Reply : Type 0 where
  not_found bad_request : Reply
  answered : Action → Reply

abbrev pub may_revert : User → Action → Bool
may_revert u a = a.tenant_id == u.ident || u.is_admin

-- `containment_action_id == action.id and is_active`
abbrev pub created_by : ℕ → BlacklistEntry → Bool
created_by n e = sql_eq e.containment_action_id n && e.is_active

abbrev pub deactivated : ℕ → BlacklistEntry → BlacklistEntry
deactivated now e = record e { is_active = false; updated_at = now }

-- `action.action_uuid in target.last_error_message`: the messages that quarantines write hold one uuid,
-- and no other message holds one.
abbrev pub names_action : ℕ → Option ErrorMessage → Bool
names_action uuid none = false
names_action uuid (some (auto_quarantined n)) = n == uuid
names_action uuid (some (other_error n)) = false

abbrev pub owns_quarantine : Action → ℕ → Target → Bool
owns_quarantine a n g =
    g.ident == n && (g.user_id == a.tenant_id && names_action a.action_uuid g.last_error_message)

abbrev pub released : Target → Target
released g = record g { is_active = true; last_error_message = none }

abbrev pub release_target : Action → Option ℕ → Tables → Tables
release_target a none t = t
release_target a (some n) t = record t { targets = update (owns_quarantine a n) released t.targets }

-- The rollback by type; the other types have no effect that is taken back.
abbrev pub undo : ℕ → Action → ActionType → Tables → Tables
undo now a blacklist_indicator t = record t {
  blacklist = update (created_by a.ident) (deactivated now) t.blacklist;
}
undo now a quarantine_target t = release_target a a.quarantined t
undo now a _ t = t

abbrev pub reverted_row : ℕ → User → Action → Action
reverted_row now u a = record a {
  status = ActionStatus.reverted;
  reverted_at = some now;
  reverted_by_user_id = some u.ident;
}

abbrev pub signed_off : ℕ → User → Action → Tables → Tables
signed_off now u a t = record t {
  actions = update (λ x. x.ident == a.ident) (reverted_row now u) t.actions;
  events =
      t.events
      ++ record {
        event_id = t.next;
        tenant_id = a.tenant_id;
        event_type = containment_reverted;
        aggregate_id = of_uuid a.action_uuid;
      }
        ∷ [];
  audits =
      t.audits
      ++ record {
        action = action_reverted;
        actor_user_id = some u.ident;
        resource_id = a.action_uuid;
      }
        ∷ [];
  next = t.next + 1;
}

abbrev pub revert_by_status : ℕ → User → Action → ActionStatus → Tables → Tables × Reply
revert_by_status now u a ActionStatus.reverted t = (t, answered a)
revert_by_status now u a ActionStatus.executed t =
    (signed_off now u a (undo now a a.action_type t), answered (reverted_row now u a))
revert_by_status now u a _ t = (t, bad_request)

abbrev pub revert_found : ℕ → User → Tables → Option Action → Tables × Reply
revert_found now u t none = (t, not_found)
revert_found now u t (some a) =
    if may_revert u a then revert_by_status now u a a.status t else (t, not_found)

unfoldable pub revert_action : ℕ → User → ℕ → Tables → Tables × Reply
revert_action now u uuid t = revert_found now u t (find (λ a. a.action_uuid == uuid) t.actions)
