-- ===== src/Incidents/Model.antt =====
-- Incidents, their alerts and their audit trail, and get_incident. Texts are opaque numbers; a severity
-- text has its rank in SEVERITY_RANKS, as in the broadcaster.
use ai_cyber_security_suite.Prelude.{
  ℕ, Bool, true, false, ◌||◌, Option, none, some, List, if◌then◌else◌, leb, ◌==◌, sql_eq, find,
  update,
}
use ai_cyber_security_suite.Broadcaster.Envelope.{Severity, rank}
use ai_cyber_security_suite.Alerts.Model.{Alert, User}

pub data IncidentStatus : Type 0 where
  opened investigating contained resolved closed : IncidentStatus

abbrev pub same_status : IncidentStatus → IncidentStatus → Bool
same_status opened opened = true
same_status investigating investigating = true
same_status contained contained = true
same_status resolved resolved = true
same_status closed closed = true
same_status _ _ = false

-- INCIDENT_STATUS_TRANSITIONS
abbrev pub may_become : IncidentStatus → IncidentStatus → Bool
may_become opened investigating = true
may_become opened closed = true
may_become investigating contained = true
may_become investigating opened = true
may_become investigating resolved = true
may_become investigating closed = true
may_become contained investigating = true
may_become contained resolved = true
may_become contained closed = true
may_become resolved closed = true
may_become resolved opened = true
may_become closed opened = true
may_become _ _ = false

-- `in (RESOLVED, CLOSED)`
abbrev pub is_over : IncidentStatus → Bool
is_over resolved = true
is_over closed = true
is_over _ = false

-- A row of `incidents`.
pub record Incident : Type 0 where
  pub ident : ℕ
  pub incident_uuid : ℕ
  pub title : ℕ
  pub description : Option ℕ
  pub severity : Severity
  pub status : IncidentStatus
  pub assigned_to_user_id : Option ℕ
  pub created_by_user_id : Option ℕ
  pub created_at : ℕ
  pub updated_at : ℕ
  pub closed_at : Option ℕ
  pub resolution_notes : Option ℕ

pub data AuditAction : Type 0 where
  incident_created incident_created_automated incident_updated : AuditAction
  alert_attached alert_detached : AuditAction

-- A row of `audit_events` on the resource "Incident".
pub record IncidentAudit : Type 0 where
  pub action : AuditAction
  pub actor_user_id : Option ℕ
  pub resource_id : ℕ

pub record Store : Type 0 where
  pub incidents : List Incident
  pub alerts : List Alert
  pub audits : List IncidentAudit

-- IncidentNotFoundError, IncidentValidationError, IncidentAccessDeniedError, IncidentConflictError
pub data Failure : Type 0 where
  not_found malformed access_denied conflict : Failure
  bad_transition : IncidentStatus → IncidentStatus → Failure

-- What a method returns, or the error it raises.
pub data Result {ℓ} (V : Type ℓ) : Type ℓ where
  err : Failure → Result V
  ok : V → Result V

infixl 5 ◌>>=◌
abbrev pub ◌>>=◌ {ℓ κ} : {V : Type ℓ} {W : Type κ} → Result V → (V → Result W) → Result W
err why >>= next = err why
ok v >>= next = next v

-- A check that comes before the rest.
abbrev pub guard : Bool → Failure → Result (Unit {0})
guard false why = err why
guard true why = ok tt

infixl 5 ◌>>◌
abbrev pub ◌>>◌ {κ} : {W : Type κ} → Result (Unit {0}) → Result W → Result W
check >> rest = check >>= λ _. rest

-- The identifier as it is parsed: an integer, a UUID, or neither.
pub data Identifier : Type 0 where
  by_id by_uuid : ℕ → Identifier
  unparsable : Identifier

abbrev pub matches : Identifier → Incident → Bool
matches (by_id n) i = i.ident == n
matches (by_uuid n) i = i.incident_uuid == n
matches unparsable i = false

-- Who may see an incident: the system and admins every one, another user the user's own.
abbrev pub may_see : Option User → Incident → Bool
may_see none i = true
may_see (some u) i = u.is_admin || sql_eq i.created_by_user_id u.ident

abbrev pub seen : Option User → Option Incident → Result Incident
seen user none = err not_found
seen user (some i) = if may_see user i then ok i else err not_found

unfoldable pub get_incident : Option User → Identifier → List Incident → Result Incident
get_incident user unparsable is = err malformed
get_incident user (by_id n) is = seen user (find (matches (by_id n)) is)
get_incident user (by_uuid n) is = seen user (find (matches (by_uuid n)) is)

abbrev pub actor_of : Option User → Option ℕ
actor_of none = none
actor_of (some u) = some u.ident

abbrev pub higher_severity : Severity → Severity → Severity
higher_severity a b = if leb (rank b) (rank a) then a else b

-- `alert.user_id is None or alert.user_id != current_user.id`, for a user that is no admin.
abbrev pub owns_alert : Option User → Alert → Bool
owns_alert none a = true
owns_alert (some u) a = u.is_admin || sql_eq a.user_id u.ident

abbrev pub set_incident : ℕ → (Incident → Incident) → List Incident → List Incident
set_incident n f is = update (λ i. i.ident == n) f is

abbrev pub audited : AuditAction → Option User → ℕ → IncidentAudit
audited action user n = record { action = action; actor_user_id = actor_of user; resource_id = n }
