-- ===== src/Scheduler/Election/Leases.antt =====
-- Who may become leader, and what a lost election leaves behind.
use ai_cyber_security_suite.Prelude.{◌↔◌, ℕ, ◌≤◌, ◌+◌, ◌≡◌, ◌≢◌, Bool, true, false, some, arith}
use ai_cyber_security_suite.Scheduler.State.{
  Dialect, sqlite, postgresql, other, Settings, SchedulerState, Caller, AdvisoryLock,
}
use ai_cyber_security_suite.Scheduler.Election.{
  World, follower, leader_of, may_acquire, promoted, try_advisory_lock, release_advisory_lock,
  attempt_election, renew_lease, bootstrap_row,
}

-- What PostgreSQL documents of its advisory locks: a refused request changes nothing, and one
-- unlock undoes one granted request of the same connection.
pub record LockLaws (locking : AdvisoryLock) : Type 0 where
  pub refused : (k : ℕ) (l l' : locking.Locks) → locking.try_lock k l ≡ (false, l') → l' ≡ l
  pub undone :
      (k : ℕ) (l l' : locking.Locks)
      → locking.try_lock k l ≡ (true, l')
      → locking.unlock k l' ≡ some l

module _ (locking : AdvisoryLock) (laws : LockLaws locking) where
  -- Under the laws of the advisory lock, a pod that comes out of an election as a follower leaves
  -- the database and the lock table as they were.
  pub attempt_election_follower :
      (d : Dialect) (cfg : Settings) (c : Caller) (raises : Bool) (w : World locking)
      → (attempt_election locking d cfg c raises w).1.is_leader ≡ false
      → (attempt_election locking d cfg c raises w).0 ≡ w
  unfolding attempt_election try_advisory_lock release_advisory_lock
  attempt_election_follower sqlite cfg c raises w h = ground arith
  attempt_election_follower other cfg c raises w h = ground arith
  attempt_election_follower postgresql cfg c raises w h = ground (
    arith,
    laws.refused c.connection w.locks (locking.try_lock c.connection w.locks).1,
    laws.undone c.connection w.locks (locking.try_lock c.connection w.locks).1,
  )

module _ (locking : AdvisoryLock) (cfg : Settings) (c : Caller) (raises : Bool)
    (w : World locking) where
  -- While the lease of another pod has not run out, an election on PostgreSQL makes a follower and
  -- leaves the database as it was.
  pub attempt_election_yields :
      {s : SchedulerState} {p e : ℕ}
      → w.db.scheduler_state ≡ some s
      → s.leader_pod_id ≡ some p
      → p ≢ c.pod_id
      → s.lease_expires_at ≡ some e
      → c.now ≤ e
      → ((attempt_election locking postgresql cfg c raises w).1 ≡ follower)
        × ((attempt_election locking postgresql cfg c raises w).0.db ≡ w.db)
  unfolding attempt_election
  attempt_election_yields row led ne lease live = ground arith

module _ (locking : AdvisoryLock) (cfg : Settings) (c : Caller) (raises : Bool) (w : World locking)
    {s : SchedulerState} (row : w.db.scheduler_state ≡ some s) where
  -- On PostgreSQL, where the scheduler's row exists, a pod wins an epoch exactly if it gets the
  -- advisory lock, the UPDATE does not raise, the row's lease has expired or is its own, and the
  -- epoch is the row's plus one.
  pub attempt_election-wins_iff :
      (n : ℕ)
      → ((attempt_election locking postgresql cfg c raises w).1 ≡ leader_of n)
        ↔ ((locking.try_lock c.connection w.locks).0 ≡ true)
          × (raises ≡ false)
          × (may_acquire c s ≡ true)
          × (n ≡ s.current_epoch + 1)
  unfolding attempt_election try_advisory_lock
  attempt_election-wins_iff n = ground arith

  -- The winner's row: its pod, the next epoch, and a lease that runs for the configured time from now.
  pub attempt_election_row :
      (attempt_election locking postgresql cfg c raises w).1.is_leader ≡ true
      → (attempt_election locking postgresql cfg c raises w).0.db.scheduler_state
        ≡ some (promoted cfg c s)
  unfolding attempt_election try_advisory_lock
  attempt_election_row h = ground arith

-- The singleton row as it is seeded has neither a leader nor a lease, and on PostgreSQL no pod is
-- ever elected on it.
pub attempt_election_bootstrap :
    (locking : AdvisoryLock) (cfg : Settings) (c : Caller) (raises : Bool) (w : World locking)
    (t : ℕ)
    → w.db.scheduler_state ≡ some (bootstrap_row t)
    → ((attempt_election locking postgresql cfg c raises w).1 ≡ follower)
      × ((attempt_election locking postgresql cfg c raises w).0.db ≡ w.db)
unfolding attempt_election
attempt_election_bootstrap locking cfg c raises w t row = ground arith

module _ (locking : AdvisoryLock) (cfg : Settings) (c : Caller) (epoch : ℕ)
    (w : World locking) where
  -- A renewal on PostgreSQL, where the scheduler's row exists, succeeds exactly if the row names
  -- this pod and this epoch.
  pub renew_lease_iff :
      {s : SchedulerState}
      → w.db.scheduler_state ≡ some s
      → ((renew_lease locking postgresql cfg c epoch w).1 ≡ true)
        ↔ (s.leader_pod_id ≡ some c.pod_id) × (s.current_epoch ≡ epoch)
  unfolding renew_lease
  renew_lease_iff row = ground arith
