-- ===== src/Engine.antt =====
-- The monitoring engine, backend/services/monitoring_engine.py: the loop of one pod that elects or renews
-- through the scheduler and, as a leader, claims targets for its workers.
pub mod Cycles
mod Examples
use ai_cyber_security_suite.Prelude.{ℕ, Bool, true, false, not, ◌||◌, ◌&&◌, List, [], if◌then◌else◌}
use ai_cyber_security_suite.Scheduler.State.{
  Dialect, Settings, Caller, AdvisoryLock, LeaderState, ClaimedTarget,
}
use ai_cyber_security_suite.Scheduler.Election.{
  World, attempt_election, renew_lease, release_leadership,
}
use ai_cyber_security_suite.Scheduler.Claims.{claim_targets}

-- `running` is is_running: the loop's task exists and is not done.
pub record MonitoringEngine : Type 0 where
  pub is_leader : Bool
  pub current_epoch : ℕ
  pub running : Bool
  pub stopping : Bool
  pub force_enabled : Bool

-- What one cycle meets: the sessions of its two steps, whether the epoch UPDATE raises inside the
-- election, whether an error of a step reaches the engine, the tokens drawn and the rows locked.
pub record Cycle : Type 0 where
  pub voter : Caller
  pub claimer : Caller
  pub raises : Bool
  pub election_fails : Bool
  pub claim_fails : Bool
  pub uuid : ℕ → ℕ
  pub locked : ℕ → Bool

abbrev pub promote : LeaderState → MonitoringEngine → MonitoringEngine
promote s e = if s.is_leader then record e { is_leader = true; current_epoch = s.epoch } else e

abbrev pub demote : MonitoringEngine → MonitoringEngine
demote e = record e { is_leader = false; current_epoch = 0 }

-- The loop is started unless it runs or the feature is off; the result tells whether it runs.
abbrev pub start : Bool → Bool → MonitoringEngine → MonitoringEngine × Bool
start enabled force e =
    if e.running
    then (e, true)
    else if not (force || enabled)
    then (record e { force_enabled = force }, false)
    else (record e { force_enabled = force; stopping = false; running = true }, true)

module _ (locking : AdvisoryLock) (d : Dialect) (cfg : Settings) where
  -- Step 1 of a cycle. An error is logged and leaves the engine as it was.
  unfoldable pub elect : Cycle → World locking → MonitoringEngine → World locking × MonitoringEngine
  elect k w e =
      if k.election_fails
      then (w, e)
      else if e.is_leader
      then (let (w', renewed) = renew_lease locking d cfg k.voter e.current_epoch w in
          (w', if renewed then e else demote e))
      else (let (w', s) = attempt_election locking d cfg k.voter k.raises w in (w', promote s e))

  -- Step 2: the targets claimed are those handed to the worker pool.
  unfoldable pub claim_step :
      Cycle → World locking → MonitoringEngine → World locking × List ClaimedTarget
  claim_step k w e =
      if not e.is_leader || (e.stopping || k.claim_fails)
      then (w, [])
      else (let (db, cs) = claim_targets d cfg k.claimer e.current_epoch k.uuid k.locked w.db in
          (record w { db = db }, cs))

  unfoldable pub cycle_step :
      Cycle
      → World locking
      → MonitoringEngine
      → (World locking × MonitoringEngine) × List ClaimedTarget
  unfolding elect claim_step
  cycle_step k w e =
      let (w1, e1) = elect k w e in let (w2, cs) = claim_step k w1 e1 in ((w2, e1), cs)

  -- Workers are drained by the pool. `release_fails` says that the release of the lock throws.
  unfoldable pub stop :
      Caller → Bool → World locking → MonitoringEngine → World locking × MonitoringEngine
  stop c release_fails w e =
      let stopped = record e { stopping = true; running = false } in
      if not e.running && not e.stopping
      then (w, e)
      else if e.is_leader
      then (if release_fails then w else release_leadership locking d c w, demote stopped)
      else (w, stopped)
