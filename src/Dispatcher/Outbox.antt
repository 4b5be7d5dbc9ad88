-- ===== src/Dispatcher/Outbox.antt =====
-- The tables that the dispatcher works on, and the claim of due jobs (_claim_jobs_sync). Instants are
-- microseconds; urls, payloads, secrets and pods are opaque numbers.
pub mod Claims
use ai_cyber_security_suite.Prelude.{
  ℕ, ◌-◌, ◌*◌, ◌+◌, Bool, not, ◌||◌, ◌&&◌, Option, some, List, map, leb, mem, keep, select, update,
  sql_lt, true, false,
}

pub data JobStatus : Type 0 where
  pending processing delivered failed : JobStatus

-- Why a job failed or is retried: the text that `last_error` receives.
pub data Reason : Type 0 where
  preference_missing disabled_or_broken secret_missing secret_unreadable : Reason
  ssrf_blocked dns_failed : Reason
  redirected client_error server_error : ℕ → Reason
  timed_out transport_error : Reason
  exhausted : Reason → Reason

-- A row of `notification_outbox`.
pub record Job : Type 0 where
  pub ident : ℕ
  pub user_id : ℕ
  pub destination_url : ℕ
  pub payload : ℕ
  pub status : JobStatus
  pub attempt_count : ℕ
  pub next_attempt_at : ℕ
  pub locked_at : Option ℕ
  pub locked_by : Option ℕ
  pub last_error : Option Reason
  pub delivered_at : Option ℕ

-- A stored secret: sealed ones begin with `v1$`.
pub data Secret : Type 0 where
  plain sealed : ℕ → Secret

-- A row of `notification_preferences`: the columns of the webhook channel. An empty secret is none.
pub record Preference : Type 0 where
  pub ident : ℕ
  pub user_id : ℕ
  pub webhook_enabled : Bool
  pub circuit_broken : Bool
  pub circuit_broken_at : Option ℕ
  pub consecutive_failures : ℕ
  pub encrypted_webhook_secret : Option Secret
  pub webhook_secret : Option Secret

pub data Action : Type 0 where
  webhook_circuit_broken webhook_ssrf_aborted : Action

pub data Resource : Type 0 where
  notification_preferences notification_outbox : Resource

-- A row of `audit_events`; the resource id is that of a preference, or none for "egress".
pub record AuditEvent : Type 0 where
  pub action : Action
  pub actor_user_id : ℕ
  pub target_resource : Resource
  pub resource_id : Option ℕ
  pub failures : Option ℕ
  pub created_at : ℕ

-- The in-app warning that a tripped breaker leaves.
pub record Notification : Type 0 where
  pub user_id : ℕ
  pub is_read : Bool
  pub created_at : ℕ

pub record Store : Type 0 where
  pub outbox : List Job
  pub preferences : List Preference
  pub audit_events : List AuditEvent
  pub notifications : List Notification

abbrev pub seconds : ℕ → ℕ
seconds n = n * 1000000

abbrev pub lease_expiry_seconds : ℕ
lease_expiry_seconds = 60

abbrev pub is_pending : JobStatus → Bool
is_pending pending = true
is_pending _ = false

abbrev pub is_processing : JobStatus → Bool
is_processing processing = true
is_processing _ = false

-- The WHERE clause of the claim. A threshold before the clock's zero is below every lock.
abbrev pub eligible : ℕ → Job → Bool
eligible now j =
    (is_pending j.status
      || (is_processing j.status && sql_lt j.locked_at (now - seconds lease_expiry_seconds)))
    && leb j.next_attempt_at now

abbrev pub take_over : ℕ → ℕ → Job → Job
take_over now pod j = record j { status = processing; locked_at = some now; locked_by = some pod }

abbrev pub in_jobs : List Job → Job → Bool
in_jobs jobs j = mem j.ident (map (λ (k : Job). k.ident) jobs)

-- `locked` says which rows another transaction holds: SKIP LOCKED passes them over. On SQLite there
-- are none. The claimed jobs are returned as written, in the order of the query.
unfoldable pub claim_jobs : ℕ → ℕ → ℕ → (ℕ → Bool) → List Job → List Job × List Job
claim_jobs now pod batch_size locked jobs =
    let chosen =
      select (λ j. eligible now j && not (locked j.ident)) (λ j. j.next_attempt_at) batch_size
        jobs in
    (update (in_jobs chosen) (take_over now pod) jobs, map (take_over now pod) chosen)
