-- ===== src/Incidents/Editing/Lifecycle.antt =====
-- What an update may do to an incident, and when it is refused.
use ai_cyber_security_suite.Prelude.{
  ℕ, ◌≤◌, ◌<◌, ◌≡◌, ◌⊎◌, Bool, true, false, not, ◌||◌, Option, some, [], ◌∷◌, ◌++◌, is_none,
}
use ai_cyber_security_suite.Broadcaster.Envelope.{Severity, rank}
use ai_cyber_security_suite.Alerts.Model.{User}
use ai_cyber_security_suite.Incidents.Model.{
  same_status, may_become, is_over, Incident, incident_updated, Store, Failure, access_denied,
  bad_transition, Result, ok, err, Identifier, get_incident, set_incident, audited,
}
use ai_cyber_security_suite.Incidents.Editing.{IncidentUpdate, is_restricted}
use ai_cyber_security_suite.Incidents.Editing.Requested.{IsAsked}

-- An incident has a closing time exactly while it is resolved or closed.
abbrev pub IsTimed : Incident → Type 0
IsTimed i = is_none i.closed_at ≡ not (is_over i.status)

-- What an update may make of an incident.
pub record Revision (user : Option User) (i b : Incident) : Type 0 where
  pub same_ident : b.ident ≡ i.ident
  pub same_uuid : b.incident_uuid ≡ i.incident_uuid
  pub same_creator : b.created_by_user_id ≡ i.created_by_user_id
  pub same_creation : b.created_at ≡ i.created_at
  pub lawful : same_status i.status b.status || may_become i.status b.status ≡ true
  pub no_downgrade : is_restricted user ≡ true → rank i.severity ≤ rank b.severity
  pub timed : IsTimed i → IsTimed b

-- Why an edit of an incident is refused.
abbrev pub Refusal : Option User → IncidentUpdate → Incident → Failure → Type 0
Refusal user u i access_denied =
    (s : Severity) × (u.severity ≡ some s)
    × (rank s < rank i.severity)
    × (is_restricted user ≡ true)
Refusal user u i (bad_transition old new) =
    (old ≡ i.status) × (u.status ≡ some new) × (may_become old new ≡ false)
Refusal user u i _ = ⊥

abbrev Edited : Option User → IncidentUpdate → Incident → Result (Incident × Bool) → Type 0
Edited user u i (ok r) = Revision user i r.0
Edited user u i (err e) = Refusal user u i e

-- What a result tells of the update that gave it.
abbrev pub Answer :
    ℕ → Option User → Identifier → IncidentUpdate → Store → Result (Store × Incident) → Type 0
Answer now user n u s (ok (t, b)) =
    (i : Incident) × (get_incident user n s.incidents ≡ ok i)
    × IsAsked u i b
    × (((t ≡ s) × (b ≡ i))
        ⊎ ((¬ IsAsked u i i)
            × (t.incidents ≡ set_incident i.ident (λ _. b) s.incidents)
            × (t.alerts ≡ s.alerts)
            × (t.audits ≡ s.audits ++ audited incident_updated user i.ident ∷ [])
            × (b.updated_at ≡ now)
            × Revision user i b))
Answer now user n u s (err e) =
    (get_incident user n s.incidents ≡ err e)
    ⊎ ((i : Incident) × (get_incident user n s.incidents ≡ ok i) × Refusal user u i e)
