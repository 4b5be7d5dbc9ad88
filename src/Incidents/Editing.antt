-- ===== src/Incidents/Editing.antt =====
-- update_incident. An error raises before the commit, so that nothing is written.
pub mod Lifecycle
pub mod Requested
use ai_cyber_security_suite.Prelude.{
  ℕ, Bool, true, false, not, ◌||◌, ◌&&◌, Option, none, some, List, [], ◌∷◌, ◌++◌, if◌then◌else◌,
  leb, ltb, ◌==◌, sql_eq, is_none, or_else, get_or,
}
use ai_cyber_security_suite.Broadcaster.Envelope.{
  Severity, rank, info, low, medium, high, critical, unlisted,
}
use ai_cyber_security_suite.Alerts.Model.{User}
use ai_cyber_security_suite.Incidents.Model.{
  IncidentStatus, same_status, may_become, is_over, Incident, incident_updated, Store, Failure,
  access_denied, bad_transition, Result, ok, err, ◌>>=◌, ◌>>◌, guard, Identifier, get_incident,
  set_incident, audited,
}

-- IncidentUpdate; a field that is none is not to be changed.
pub record IncidentUpdate : Type 0 where
  pub title : Option ℕ
  pub description : Option ℕ
  pub assigned_to_user_id : Option ℕ
  pub resolution_notes : Option ℕ
  pub severity : Option Severity
  pub status : Option IncidentStatus

-- `new is not None and new != old`, at a column that may be NULL.
abbrev pub differs : Option ℕ → Option ℕ → Bool
differs none old = false
differs (some n) old = not (sql_eq old n)

abbrev pub severity_eq : Severity → Severity → Bool
severity_eq info info = true
severity_eq low low = true
severity_eq medium medium = true
severity_eq high high = true
severity_eq critical critical = true
severity_eq unlisted unlisted = true
severity_eq _ _ = false

-- Steps 1 to 4, the texts and the assignee.
abbrev pub edit_texts : IncidentUpdate → Incident → Incident
edit_texts u i = record i {
  title = get_or u.title i.title;
  description = or_else u.description i.description;
  assigned_to_user_id = or_else u.assigned_to_user_id i.assigned_to_user_id;
  resolution_notes = or_else u.resolution_notes i.resolution_notes;
}

abbrev pub edits_texts : IncidentUpdate → Incident → Bool
edits_texts u i =
    differs u.title (some i.title)
    || (differs u.description i.description
        || (differs u.assigned_to_user_id i.assigned_to_user_id
            || differs u.resolution_notes i.resolution_notes))

-- `current_user is not None and current_user.role != "admin"`
abbrev pub is_restricted : Option User → Bool
is_restricted none = false
is_restricted (some u) = not u.is_admin

-- Step 5. A result carries whether there is a change.
unfoldable pub change_severity : Option User → Option Severity → Incident → Result (Incident × Bool)
change_severity user none i = ok (i, false)
change_severity user (some s) i =
    if severity_eq s i.severity
    then ok (i, false)
    else if ltb (rank s) (rank i.severity) && is_restricted user
    then err access_denied
    else ok (record i { severity = s }, true)

abbrev pub closing_time : ℕ → IncidentStatus → IncidentStatus → Option ℕ → Option ℕ
closing_time now old new closed_at =
    if is_over new then or_else closed_at (some now) else if is_over old then none else closed_at

-- Step 6.
unfoldable pub change_status : ℕ → Option IncidentStatus → Incident → Result (Incident × Bool)
change_status now none i = ok (i, false)
change_status now (some new) i =
    if same_status new i.status
    then ok (i, false)
    else if not (may_become i.status new)
    then err (bad_transition i.status new)
    else ok (record i { status = new; closed_at = closing_time now i.status new i.closed_at }, true)

-- The row after all steps, and whether any changed it.
unfoldable pub edit : ℕ → Option User → IncidentUpdate → Incident → Result (Incident × Bool)
unfolding change_severity change_status
edit now user u i = do
  s ← change_severity user u.severity (edit_texts u i)
  t ← change_status now u.status s.0
  ok (t.0, edits_texts u i || (s.1 || t.1))

unfoldable pub update_incident :
    ℕ → Option User → Identifier → IncidentUpdate → Store → Result (Store × Incident)
unfolding edit
update_incident now user n u s = do
  i ← get_incident user n s.incidents
  r ← edit now user u i
  let saved = record r.0 { updated_at = now }
  ok (
      if r.1
      then (
        record s {
          incidents = set_incident i.ident (λ _. saved) s.incidents;
          audits = s.audits ++ audited incident_updated user i.ident ∷ [];
        },
        saved,
      )
      else (s, i))
