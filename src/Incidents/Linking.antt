-- ===== src/Incidents/Linking.antt =====
-- attach_alerts, detach_alert and create_incident.
pub mod Attachment
use ai_cyber_security_suite.Prelude.{
  ℕ, ◌+◌, Bool, true, false, not, ◌||◌, ◌&&◌, Option, none, some, List, [], ◌∷◌, ◌++◌, map,
  if◌then◌else◌, ltb, ◌==◌, sql_eq, is_none, mem, keep, any, find, length, update,
}
use ai_cyber_security_suite.Broadcaster.Envelope.{Severity}
use ai_cyber_security_suite.Alerts.Model.{Alert, User}
use ai_cyber_security_suite.Incidents.Model.{
  opened, Incident, incident_created, alert_attached, alert_detached, Store, Failure, not_found,
  access_denied, conflict, Result, ok, err, ◌>>=◌, ◌>>◌, guard, Identifier, by_id, get_incident,
  actor_of, higher_severity, owns_alert, set_incident, audited,
}

abbrev pub alert_id : Alert → ℕ
alert_id a = a.ident

-- `Alert.id.in_(alert_ids)`
abbrev pub requested : List ℕ → List Alert → List Alert
requested ids alerts = keep (λ a. mem a.ident ids) alerts

abbrev pub none_missing : List ℕ → List Alert → Bool
none_missing ids found = not (any (λ n. not (mem n (map alert_id found))) ids)

-- `Alert.incident_id == incident.id`
abbrev pub is_attached : ℕ → Alert → Bool
is_attached n a = sql_eq a.incident_id n

-- The checks of the loop over the requested alerts, in its order.
unfoldable pub check_alerts : Option User → ℕ → List Alert → Result (Unit {0})
check_alerts user n [] = ok tt
check_alerts user n (a ∷ as_) = do
  guard (owns_alert user a) access_denied
  guard (is_none a.incident_id || is_attached n a) conflict
  check_alerts user n as_

abbrev pub highest : Severity → List Alert → Severity
highest s [] = s
highest s (a ∷ as_) = highest (higher_severity s a.severity) as_

abbrev pub attach : ℕ → Alert → Alert
attach n a = record a { incident_id = some n }

abbrev pub linked : ℕ → List ℕ → List Alert → List Alert
linked n ids alerts = update (λ a. mem a.ident ids) (attach n) alerts

-- The severity over the alerts attached before, the requested ones, the row, and all attached after.
abbrev pub escalated : Incident → List Alert → List Alert → List Alert → Severity
escalated i before found after =
    highest (higher_severity (highest (highest i.severity before) found) i.severity) after

unfoldable pub attach_found : ℕ → Option User → List ℕ → Incident → Store → Store × Incident
attach_found now user ids i s =
    let found = requested ids s.alerts in
    let alerts = linked i.ident ids s.alerts in
    let saved = record i {
      severity =
          escalated i (keep (is_attached i.ident) s.alerts) found
            (keep (is_attached i.ident) alerts);
      updated_at = now;
    } in
    let attached_count = length (keep (λ a. not (is_attached i.ident a)) found) in
    (
      record s {
        incidents = set_incident i.ident (λ _. saved) s.incidents;
        alerts = alerts;
        audits =
            s.audits
            ++ (if ltb 0 attached_count then audited alert_attached user i.ident ∷ [] else []);
      },
      saved,
    )

-- An error raises before the commit.
unfoldable pub attach_alerts :
    ℕ → Option User → Identifier → List ℕ → Store → Result (Store × Incident)
unfolding attach_found check_alerts
attach_alerts now user n [] s = do i ← get_incident user n s.incidents; ok (s, i)
attach_alerts now user n (k ∷ ks) s = do
  i ← get_incident user n s.incidents
  guard (none_missing (k ∷ ks) (requested (k ∷ ks) s.alerts)) not_found
  check_alerts user i.ident (requested (k ∷ ks) s.alerts)
  ok (attach_found now user (k ∷ ks) i s)

abbrev pub release : Alert → Alert
release a = record a { incident_id = none }

abbrev pub attached_row : Option Alert → Result Alert
attached_row none = err not_found
attached_row (some a) = ok a

unfoldable pub detach_alert : ℕ → Option User → Identifier → ℕ → Store → Result (Store × Incident)
detach_alert now user n k s = do
  i ← get_incident user n s.incidents
  a ← attached_row (find (λ a. a.ident == k && is_attached i.ident a) s.alerts)
  guard (owns_alert user a) access_denied
  let saved = record i { updated_at = now }
  ok (
    record s {
      incidents = set_incident i.ident (λ _. saved) s.incidents;
      alerts = update (λ x. x.ident == k) release s.alerts;
      audits = s.audits ++ audited alert_detached user i.ident ∷ [];
    },
    saved,
  )

pub record IncidentCreate : Type 0 where
  pub title : ℕ
  pub description : Option ℕ
  pub severity : Severity
  pub assigned_to_user_id : Option ℕ
  pub alert_ids : List ℕ

-- The row of a new incident; `ident` and `uuid` are drawn by the database.
abbrev pub new_incident : ℕ → Option User → ℕ → ℕ → IncidentCreate → Incident
new_incident now user ident uuid c = record {
  ident = ident;
  incident_uuid = uuid;
  title = c.title;
  description = c.description;
  severity = c.severity;
  status = opened;
  assigned_to_user_id = c.assigned_to_user_id;
  created_by_user_id = actor_of user;
  created_at = now;
  updated_at = now;
  closed_at = none;
  resolution_notes = none;
}

abbrev pub audit_created : Option User → Store × Incident → Store × Incident
audit_created user r = (
  let s = r.0 in record s { audits = s.audits ++ audited incident_created user r.1.ident ∷ [] },
  r.1,
)

-- The incident is committed first: the tables come with a failure to attach its alerts too.
abbrev pub created : Option User → Store → Result (Store × Incident) → Store × Result Incident
created user s (ok r) = ((audit_created user r).0, ok r.1)
created user s (err e) = (s, err e)

unfoldable pub create_incident :
    ℕ → Option User → ℕ → ℕ → IncidentCreate → Store → Store × Result Incident
unfolding attach_alerts
create_incident now user ident uuid c s =
    let i = new_incident now user ident uuid c in
    let inserted = record s { incidents = s.incidents ++ i ∷ [] } in
    created user inserted (
      if length c.alert_ids == 0
      then ok (inserted, i)
      else attach_alerts now user (by_id ident) c.alert_ids inserted)
