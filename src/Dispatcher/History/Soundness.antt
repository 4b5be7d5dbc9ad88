-- ===== src/Dispatcher/History/Soundness.antt =====
-- What every history keeps: sound breakers, and attempts below the limit.
use ai_cyber_security_suite.Prelude.{
  ℕ, ◌+◌, inl, inr, false, List, [], ◌∷◌, Bool-cases, Option-cases, leb, ◌==◌, row_of,
}
use ai_cyber_security_suite.Dispatcher.Outbox.{Job, Store}
use ai_cyber_security_suite.Dispatcher.Breaker.Trips.{
  Breaker, increment_circuit_breaker-Breaker, reset_counter-Breaker,
}
use ai_cyber_security_suite.Dispatcher.Delivery.{
  job_id, max_attempts, Outside, Outcome, success, terminal, retry, conclude_job, dispatch_job,
  record_job_success, record_job_terminal_failure, record_job_retry_or_fail,
}
use ai_cyber_security_suite.Dispatcher.History.{Event, claims, dispatches, step, run}

conclude_job-Breaker :
    (user : ℕ) (o : Outside) (j : Job) (r : Outcome) (s : Store)
    → Breaker user s
    → Breaker user (conclude_job o j r s)
unfolding conclude_job record_job_success record_job_terminal_failure record_job_retry_or_fail
conclude_job-Breaker user o j success s b = reset_counter-Breaker user j.user_id _ b
conclude_job-Breaker user o j (terminal why is_ssrf) s b =
    elim (Option-cases (row_of job_id j.ident s.outbox)) [
      | inl e ↦ rw e b
      | inr (k, e) ↦ elim (Bool-cases (k.user_id == 0)) [
        | inl z ↦ rw (e, z) b
        | inr z ↦ rw (e, z) (increment_circuit_breaker-Breaker user o.now k.user_id is_ssrf _ b)
      ]
    ]
conclude_job-Breaker user o j (retry why) s b =
    elim (Option-cases (row_of job_id j.ident s.outbox)) [
      | inl e ↦ rw e b
      | inr (k, e) ↦ elim (Bool-cases (leb max_attempts (j.attempt_count + 1))) [
        | inl z ↦ rw (e, z) (increment_circuit_breaker-Breaker user o.now k.user_id false _ b)
        | inr z ↦ rw (e, z) b
      ]
    ]

step-Breaker : (user : ℕ) (s : Store) (e : Event) → Breaker user s → Breaker user (step s e)
unfolding step dispatch_job
step-Breaker user s (claims now pod n locked) b = b
step-Breaker user s (dispatches o j) b = conclude_job-Breaker user o j _ s b

-- In every history of claims and dispatches a user's breaker stays sound, if it was sound at the
-- start: closed below five failures with no trip audited, or open with the webhook disabled and
-- exactly one trip audited.
pub run-Breaker :
    (user : ℕ) (s : Store) (es : List Event) → Breaker user s → Breaker user (run s es)
unfolding run
run-Breaker user s [] b = b
run-Breaker user s (e ∷ es) b = run-Breaker user (step s e) es (step-Breaker user s e b)
