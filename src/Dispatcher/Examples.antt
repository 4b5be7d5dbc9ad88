-- ===== src/Dispatcher/Examples.antt =====
-- Small outboxes, and the theorems at concrete inputs.
use ai_cyber_security_suite.Prelude.{
  ℕ, ◌≡◌, ◌≢◌, Bool, true, false, none, some, List, [], ◌∷◌, refl, arith, inl, All, Distinct,
}
use ai_cyber_security_suite.Dispatcher.Outbox.{
  Job, pending, delivered, sealed, Preference, Store, claim_jobs,
}
use ai_cyber_security_suite.Dispatcher.Outbox.Claims.{ident_of, claim_jobs_exclusive}
use ai_cyber_security_suite.Dispatcher.Breaker.{increment_circuit_breaker}
use ai_cyber_security_suite.Dispatcher.Breaker.Trips.{Breaker, trips}
use ai_cyber_security_suite.Dispatcher.Delivery.{
  record_job_terminal_failure, Outside, resolved, responded, dispatch_job, classify,
}
use ai_cyber_security_suite.Dispatcher.History.{Event, claims, dispatches, step, run}
use ai_cyber_security_suite.Dispatcher.History.Soundness.{run-Breaker}
use ai_cyber_security_suite.Dispatcher.History.Attempts.{IsBounded, run-IsBounded}

abbrev queued : ℕ → Job
queued i = record {
  ident = i;
  user_id = 3;
  destination_url = 50;
  payload = 60;
  status = pending;
  attempt_count = 0;
  next_attempt_at = 100;
  locked_at = none;
  locked_by = none;
  last_error = none;
  delivered_at = none;
}

abbrev done_job : Job
done_job = let j = queued 9 in record j { status = delivered; delivered_at = some 90 }

abbrev preference : Preference
preference = record {
  ident = 1;
  user_id = 3;
  webhook_enabled = true;
  circuit_broken = false;
  circuit_broken_at = none;
  consecutive_failures = 3;
  encrypted_webhook_secret = some (sealed 77);
  webhook_secret = none;
}

abbrev jobs : List Job
jobs = queued 1 ∷ queued 2 ∷ done_job ∷ []

abbrev store : Store
store = record {
  outbox = jobs;
  preferences = preference ∷ [];
  audit_events = [];
  notifications = [];
}

abbrev unlocked : ℕ → Bool
unlocked i = false

-- The receiver answers with a status.
abbrev answers : ℕ → Outside
answers code = record {
  now = 300;
  jitter = 1000000;
  decrypts = λ k. true;
  egress = resolved;
  reply = responded code;
}

abbrev refused_twice : List Event
refused_twice =
    claims 200 1 10 unlocked
    ∷ dispatches (answers 404) (queued 1)
    ∷ dispatches (answers 302) (queued 2)
    ∷ []

-- Three failures before, and two more: the breaker trips, and once.
refused_twice-trips : trips 3 (run store refused_twice).audit_events ≡ 1
unfolding run step dispatch_job increment_circuit_breaker classify claim_jobs
    record_job_terminal_failure
refused_twice-trips = refl

jobs-Distinct : Distinct ident_of jobs
jobs-Distinct = omega arith

store-Breaker : Breaker 3 store
store-Breaker = (preference, refl, inl (refl, omega arith, refl))

run-Breaker_example : Breaker 3 (run store refused_twice)
run-Breaker_example = run-Breaker 3 store refused_twice store-Breaker

store-IsBounded : IsBounded jobs
store-IsBounded = (jobs-Distinct, (λ e. omega arith, (λ e. omega arith, (λ e. omega arith, tt))))

run-IsBounded_example : IsBounded (run store refused_twice).outbox
run-IsBounded_example = run-IsBounded store refused_twice store-IsBounded

claim_jobs_exclusive_example :
    All
      (λ j.
        All
          (λ k. j.ident ≢ k.ident)
          (claim_jobs 900 2 10 unlocked (claim_jobs 200 1 10 unlocked jobs).0).1)
      (claim_jobs 200 1 10 unlocked jobs).1
claim_jobs_exclusive_example =
    claim_jobs_exclusive 200 900 1 2 10 10 unlocked unlocked jobs jobs-Distinct (omega arith)
