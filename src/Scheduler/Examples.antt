-- ===== src/Scheduler/Examples.antt =====
-- Runs on small tables, and the theorems at concrete inputs.
use ai_cyber_security_suite.Prelude.{
  ℕ, ◌+◌, ◌≡◌, Bool, true, false, Option, none, some, List, [], ◌∷◌, refl, arith, if◌then◌else◌,
  ◌==◌,
}
use ai_cyber_security_suite.Scheduler.State.{
  postgresql, default_settings, SchedulerState, MonitoringTarget, Caller, AdvisoryLock,
}
use ai_cyber_security_suite.Scheduler.Election.{
  World, attempt_election, renew_lease, bootstrap_row, get_current_epoch, promoted,
  try_advisory_lock, release_advisory_lock,
}
use ai_cyber_security_suite.Scheduler.Election.Leases.{LockLaws, attempt_election_row}
use ai_cyber_security_suite.Scheduler.Service.{Operation, elects, renews, step, run}
use ai_cyber_security_suite.Scheduler.Service.Fencing.{
  StrictAbove, run-StrictAbove, run_bootstrap_stuck,
}

-- One lock, held by a connection as often as it asked.
abbrev pub grant : ℕ → List ℕ → Bool × List ℕ
grant k [] = (true, k ∷ [])
grant k (h ∷ t) = if h == k then (true, k ∷ h ∷ t) else (false, h ∷ t)

abbrev pub give_back : ℕ → List ℕ → Option (List ℕ)
give_back k [] = none
give_back k (h ∷ t) = if h == k then some t else none

abbrev pub stack_lock : AdvisoryLock
stack_lock = record { Locks = List ℕ; try_lock = grant; unlock = give_back }

stack_lock-LockLaws : LockLaws stack_lock
stack_lock-LockLaws = record { refused = grant_refused; undone = grant_undone }
  where
    grant_refused : (k : ℕ) (l l' : List ℕ) → grant k l ≡ (false, l') → l' ≡ l
    grant_refused k [] l' e = cc
    grant_refused k (h ∷ t) l' e = ground arith

    grant_undone : (k : ℕ) (l l' : List ℕ) → grant k l ≡ (true, l') → give_back k l' ≡ some l
    grant_undone k [] l' e = ground arith
    grant_undone k (h ∷ t) l' e = ground arith

abbrev pub pod_a : Caller
pod_a = record { now = 1000; pod_id = 1; connection = 11 }

abbrev pub pod_b : Caller
pod_b = record { now = 2000; pod_id = 2; connection = 22 }

abbrev pub led_by_a : SchedulerState
led_by_a = record {
  current_epoch = 7;
  leader_pod_id = some 1;
  lease_acquired_at = some 1000;
  lease_expires_at = some 60001000;
  updated_at = 1000;
}

-- A target that is due and unclaimed.
abbrev pub due : ℕ → MonitoringTarget
due i = record {
  ident = i;
  url = 100;
  normalized_domain = 200;
  check_interval_minutes = 60;
  is_active = true;
  last_checked_at = none;
  next_check_at = 500;
  last_prediction = none;
  last_confidence = none;
  consecutive_failures = 0;
  execution_token = none;
  execution_epoch = none;
  execution_expires_at = none;
  user_id = 3;
}

abbrev pub taken : MonitoringTarget
taken =
    let t = due 5 in
    record t {
      execution_token = some 99;
      execution_epoch = some 6;
      execution_expires_at = some 5000;
    }

abbrev pub table : List MonitoringTarget
table = due 4 ∷ taken ∷ []

abbrev pub free_world : World stack_lock
free_world = record {
  db = record { scheduler_state = some led_by_a; monitoring_targets = table };
  locks = [];
}

-- The lease of pod 1 has run out.
abbrev pub late_b : Caller
late_b = record { now = 60001001; pod_id = 2; connection = 22 }

abbrev pub uuids : ℕ → ℕ
uuids i = i + 1000

abbrev pub unlocked : ℕ → Bool
unlocked i = false

attempt_election_row_example :
    (attempt_election stack_lock postgresql default_settings late_b false
      free_world).0.db.scheduler_state
    ≡ some (promoted default_settings late_b led_by_a)
unfolding attempt_election try_advisory_lock
attempt_election_row_example =
    attempt_election_row stack_lock default_settings late_b false free_world refl refl

-- Pod 2 is elected after the lease of pod 1, and then pod 1 after that of pod 2.
abbrev later_a : Caller
later_a = record { now = 200000000; pod_id = 1; connection = 22 }

abbrev history : List Operation
history = elects pod_b false ∷ elects late_b false ∷ renews pod_a 7 ∷ elects later_a false ∷ []

history_epochs : (run stack_lock postgresql default_settings free_world history).1 ≡ 8 ∷ 9 ∷ []
unfolding run step attempt_election try_advisory_lock release_advisory_lock renew_lease
history_epochs = refl

run-StrictAbove_example :
    StrictAbove
      (get_current_epoch free_world.db)
      (run stack_lock postgresql default_settings free_world history).1
run-StrictAbove_example =
    run-StrictAbove stack_lock postgresql default_settings free_world history (λ e. cc)

abbrev pub won_by_b : World stack_lock
won_by_b = record {
  db = record {
    scheduler_state = some (promoted default_settings late_b led_by_a);
    monitoring_targets = table;
  };
  locks = 22 ∷ [];
}

abbrev seeded : World stack_lock
seeded = record {
  db = record { scheduler_state = some (bootstrap_row 0); monitoring_targets = [] };
  locks = [];
}

run_bootstrap_stuck_example :
    ((run stack_lock postgresql default_settings seeded history).0.db.scheduler_state
      ≡ some (bootstrap_row 0))
    × ((run stack_lock postgresql default_settings seeded history).1 ≡ [])
run_bootstrap_stuck_example = run_bootstrap_stuck stack_lock default_settings 0 seeded history refl
