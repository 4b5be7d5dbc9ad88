-- ===== src/Scheduler/Claims.antt =====
-- The claim loop: claim_targets with its PostgreSQL and SQLite statements.
-- `uuid` gives the token that a row is drawn (gen_random_uuid() or uuid4()), by the row's id;
-- `locked` says which rows another transaction holds (FOR UPDATE SKIP LOCKED).
pub mod Selection
pub mod Exclusive
use ai_cyber_security_suite.Prelude.{
  ℕ, ◌+◌, Bool, not, ◌||◌, ◌&&◌, Option, none, some, List, [], ◌∷◌, map, if◌then◌else◌, leb, ◌==◌,
  sql_lt, is_none, mem, keep, select, update,
}
use ai_cyber_security_suite.Scheduler.State.{
  Dialect, sqlite, postgresql, other, Settings, MonitoringTarget, Db, Caller, ClaimedTarget,
  seconds,
}

-- The WHERE clause of the claim.
abbrev pub claimable : ℕ → MonitoringTarget → Bool
claimable now t =
    t.is_active
    && (leb t.next_check_at now && (is_none t.execution_token || sql_lt t.execution_expires_at now))

-- The lease that a claim writes into a row.
abbrev pub lease : (ℕ → ℕ) → ℕ → ℕ → MonitoringTarget → MonitoringTarget
lease uuid epoch expires t = record t {
  execution_token = some (uuid t.ident);
  execution_epoch = some epoch;
  execution_expires_at = some expires;
}

abbrev pub as_claimed : (ℕ → ℕ) → ℕ → MonitoringTarget → ClaimedTarget
as_claimed uuid epoch t = record {
  target_id = t.ident;
  url = t.url;
  normalized_domain = t.normalized_domain;
  check_interval_minutes = t.check_interval_minutes;
  execution_token = uuid t.ident;
  execution_epoch = epoch;
  user_id = t.user_id;
}

abbrev pub in_rows : List MonitoringTarget → MonitoringTarget → Bool
in_rows rows t = mem t.ident (map (λ r. r.ident) rows)

-- One statement: the CTE selects, the UPDATE writes, RETURNING reads the rows written.
unfoldable pub claim_pg :
    Settings
    → Caller
    → ℕ
    → (ℕ → ℕ)
    → (ℕ → Bool)
    → List MonitoringTarget
    → List MonitoringTarget × List ClaimedTarget
claim_pg cfg c epoch uuid locked ts =
    let rows =
      select (λ t. claimable c.now t && not (locked t.ident)) (λ t. t.next_check_at)
        cfg.claim_batch_size ts in
    let expires = c.now + seconds cfg.worker_lease_seconds in
    (
      update (in_rows rows) (lease uuid epoch expires) ts,
      map (as_claimed uuid epoch) (keep (in_rows rows) ts),
    )

-- The loop over the selected rows: one UPDATE by id for each.
unfoldable pub claim_each :
    (ℕ → ℕ)
    → ℕ
    → ℕ
    → List MonitoringTarget
    → List MonitoringTarget
    → List MonitoringTarget × List ClaimedTarget
claim_each uuid epoch expires [] ts = (ts, [])
claim_each uuid epoch expires (r ∷ rs) ts =
    let (ts', cs) =
      claim_each uuid epoch expires rs
        (update (λ t. t.ident == r.ident) (lease uuid epoch expires) ts) in
    (ts', as_claimed uuid epoch r ∷ cs)

unfoldable pub claim_sqlite :
    Settings
    → Caller
    → ℕ
    → (ℕ → ℕ)
    → List MonitoringTarget
    → List MonitoringTarget × List ClaimedTarget
claim_sqlite cfg c epoch uuid ts =
    claim_each uuid epoch (c.now + seconds cfg.worker_lease_seconds)
      (select (claimable c.now) (λ t. t.next_check_at) cfg.claim_batch_size ts) ts

-- Every dialect but PostgreSQL takes the SQLite path.
unfoldable pub claim_rows :
    Dialect
    → Settings
    → Caller
    → ℕ
    → (ℕ → ℕ)
    → (ℕ → Bool)
    → List MonitoringTarget
    → List MonitoringTarget × List ClaimedTarget
claim_rows postgresql cfg c epoch uuid locked ts = claim_pg cfg c epoch uuid locked ts
claim_rows sqlite cfg c epoch uuid locked ts = claim_sqlite cfg c epoch uuid ts
claim_rows other cfg c epoch uuid locked ts = claim_sqlite cfg c epoch uuid ts

unfoldable pub claim_targets :
    Dialect → Settings → Caller → ℕ → (ℕ → ℕ) → (ℕ → Bool) → Db → Db × List ClaimedTarget
unfolding claim_rows
claim_targets d cfg c epoch uuid locked db =
    let (ts, cs) = claim_rows d cfg c epoch uuid locked db.monitoring_targets in
    (record db { monitoring_targets = ts }, cs)
