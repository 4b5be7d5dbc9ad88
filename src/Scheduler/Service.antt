-- ===== src/Scheduler/Service.antt =====
-- Histories: any number of pods call the scheduler's operations in any order.
pub mod Fencing
use ai_cyber_security_suite.Prelude.{ℕ, Bool, Option, none, some, List, [], ◌∷◌, if◌then◌else◌}
use ai_cyber_security_suite.Scheduler.State.{Dialect, Settings, Caller, AdvisoryLock, LeaderState}
use ai_cyber_security_suite.Scheduler.Election.{
  World, attempt_election, renew_lease, release_leadership,
}
use ai_cyber_security_suite.Scheduler.Claims.{claim_targets}
use ai_cyber_security_suite.Scheduler.WriteBack.{Report, write_back_result}

-- One call of the service, with what its caller reads and passes.
pub data Operation : Type 0 where
  elects : Caller → Bool → Operation
  renews : Caller → ℕ → Operation
  releases : Caller → Operation
  claims : Caller → ℕ → (ℕ → ℕ) → (ℕ → Bool) → Operation
  writes : ℕ → Report → Operation

-- The epoch that an election hands its winner.
abbrev pub won : LeaderState → Option ℕ
won s = if s.is_leader then some s.epoch else none

module _ (locking : AdvisoryLock) (d : Dialect) (cfg : Settings) where
  unfoldable pub step : World locking → Operation → World locking × Option ℕ
  step w (elects c raises) = let (w', s) = attempt_election locking d cfg c raises w in (w', won s)
  step w (renews c epoch) = ((renew_lease locking d cfg c epoch w).0, none)
  step w (releases c) = (release_leadership locking d c w, none)
  step w (claims c epoch uuid locked) =
      (record w { db = (claim_targets d cfg c epoch uuid locked w.db).0 }, none)
  step w (writes now r) = (record w { db = (write_back_result now r w.db).0 }, none)

  abbrev pub logged : Option ℕ → List ℕ → List ℕ
  logged none ns = ns
  logged (some n) ns = n ∷ ns

  -- The world after a history, and the epochs won in it, in order.
  unfoldable pub run : World locking → List Operation → World locking × List ℕ
  run w [] = (w, [])
  run w (o ∷ os) = let (w1, e) = step w o in let (w2, es) = run w1 os in (w2, logged e es)
