-- ===== src/Scheduler/Election.antt =====
-- Leader election: attempt_election, renew_lease and release_leadership, with their helpers.
pub mod Leases
use ai_cyber_security_suite.Prelude.{
  ℕ, ◌+◌, Bool, true, false, ◌||◌, ◌&&◌, Option, none, some, if◌then◌else◌, sql_lt, sql_eq, ◌==◌,
}
use ai_cyber_security_suite.Scheduler.State.{
  Dialect, sqlite, postgresql, other, Settings, SchedulerState, Db, Caller, AdvisoryLock,
  LeaderState, seconds,
}

abbrev pub follower : LeaderState
follower = record { is_leader = false; epoch = 0 }

abbrev pub leader_of : ℕ → LeaderState
leader_of n = record { is_leader = true; epoch = n }

-- The WHERE clause of the epoch UPDATE: the lease has expired, or it is this pod's own.
abbrev pub may_acquire : Caller → SchedulerState → Bool
may_acquire c s = sql_lt s.lease_expires_at c.now || sql_eq s.leader_pod_id c.pod_id

-- The row that the epoch UPDATE leaves.
abbrev pub promoted : Settings → Caller → SchedulerState → SchedulerState
promoted cfg c s = record {
  current_epoch = s.current_epoch + 1;
  leader_pod_id = some c.pod_id;
  lease_acquired_at = some c.now;
  lease_expires_at = some (c.now + seconds cfg.leader_lease_seconds);
  updated_at = c.now;
}

acquire_epoch_pg : Settings → Caller → Db → Db × Option ℕ
acquire_epoch_pg cfg c db = elim db.scheduler_state [
  | none ↦ (db, none)
  | some s ↦
      if may_acquire c s
      then (record db { scheduler_state = some (promoted cfg c s) }, some (s.current_epoch + 1))
      else (db, none)
]

-- `INSERT OR IGNORE` where the row is absent.
sqlite_row : Caller → Option SchedulerState → SchedulerState
sqlite_row c none = record {
  current_epoch = 0;
  leader_pod_id = some c.pod_id;
  lease_acquired_at = none;
  lease_expires_at = none;
  updated_at = c.now;
}
sqlite_row c (some s) = s

acquire_epoch_sqlite : Settings → Caller → Db → Db × Option ℕ
unfolding sqlite_row
acquire_epoch_sqlite cfg c db =
    let s = sqlite_row c db.scheduler_state in
    (record db { scheduler_state = some (promoted cfg c s) }, some (s.current_epoch + 1))

unfoldable pub try_acquire_epoch : Dialect → Settings → Caller → Db → Db × Option ℕ
unfolding acquire_epoch_pg acquire_epoch_sqlite
try_acquire_epoch sqlite cfg c db = acquire_epoch_sqlite cfg c db
try_acquire_epoch postgresql cfg c db = acquire_epoch_pg cfg c db
try_acquire_epoch other cfg c db = (db, some 1)

module _ (locking : AdvisoryLock) where
  open locking use {Locks, try_lock, unlock}

  -- The database with PostgreSQL's table of advisory locks.
  pub record World : Type 0 where
    pub db : Db
    pub locks : Locks

  unfoldable pub try_advisory_lock : Dialect → Caller → Locks → Bool × Locks
  try_advisory_lock sqlite c l = (true, l)
  try_advisory_lock postgresql c l = try_lock c.connection l
  try_advisory_lock other c l = (true, l)

  -- A failing unlock is logged and ignored.
  unfoldable pub release_advisory_lock : Dialect → Caller → Locks → Locks
  release_advisory_lock sqlite c l = l
  release_advisory_lock postgresql c l = elim (unlock c.connection l) [ none ↦ l | some l' ↦ l' ]
  release_advisory_lock other c l = l

  -- The outcome of the epoch UPDATE, once the lock is held.
  conclude : Dialect → Caller → Locks → Db × Option ℕ → World × LeaderState
  conclude d c l (db, none) = (record { db = db; locks = release_advisory_lock d c l }, follower)
  conclude d c l (db, some n) = (record { db = db; locks = l }, leader_of n)

  -- `raises` says that the epoch UPDATE throws; nothing is then written.
  unfoldable pub attempt_election : Dialect → Settings → Caller → Bool → World → World × LeaderState
  unfolding try_acquire_epoch conclude
  attempt_election d cfg c raises w =
      let (acquired, l) = try_advisory_lock d c w.locks in
      if acquired
      then (if raises
          then conclude d c l (w.db, none)
          else conclude d c l (try_acquire_epoch d cfg c w.db))
      else (record { db = w.db; locks = l }, follower)

  -- `WHERE leader_pod_id = :pod_id AND current_epoch = :epoch`
  abbrev pub may_renew : Caller → ℕ → SchedulerState → Bool
  may_renew c epoch s = sql_eq s.leader_pod_id c.pod_id && s.current_epoch == epoch

  renew_pg : Settings → Caller → ℕ → World → World × Bool
  renew_pg cfg c epoch w = elim w.db.scheduler_state [
    | none ↦ (record w { locks = release_advisory_lock postgresql c w.locks }, false)
    | some s ↦
        let extended = record s {
          lease_expires_at = some (c.now + seconds cfg.leader_lease_seconds);
          updated_at = c.now;
        } in
        let db = w.db in
        if may_renew c epoch s
        then (record w { db = record db { scheduler_state = some extended } }, true)
        else (record w { locks = release_advisory_lock postgresql c w.locks }, false)
  ]

  unfoldable pub renew_lease : Dialect → Settings → Caller → ℕ → World → World × Bool
  unfolding renew_pg
  renew_lease sqlite cfg c epoch w = (w, true)
  renew_lease postgresql cfg c epoch w = renew_pg cfg c epoch w
  renew_lease other cfg c epoch w = (w, true)

  unfoldable pub release_leadership : Dialect → Caller → World → World
  release_leadership d c w = record w { locks = release_advisory_lock d c w.locks }

-- The singleton row as the migration and `ensure_scheduler_state_row` insert it.
abbrev pub bootstrap_row : ℕ → SchedulerState
bootstrap_row now = record {
  current_epoch = 0;
  leader_pod_id = none;
  lease_acquired_at = none;
  lease_expires_at = none;
  updated_at = now;
}

unfoldable pub ensure_scheduler_state_row : ℕ → Db → Db
ensure_scheduler_state_row now db = elim db.scheduler_state [
  | none ↦ record db { scheduler_state = some (bootstrap_row now) }
  | some s ↦ db
]

unfoldable pub get_current_epoch : Db → ℕ
get_current_epoch db = elim db.scheduler_state [ none ↦ 0 | some s ↦ s.current_epoch ]
