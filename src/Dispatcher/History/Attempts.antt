-- ===== src/Dispatcher/History/Attempts.antt =====
-- Every history keeps the attempts of a job below the limit for as long as it may be sent.
use ai_cyber_security_suite.Prelude.{
  ℕ, ◌+◌, ◌<◌, ◌≡◌, inl, inr, Bool, true, false, some, List, [], ◌∷◌, refl, arith, Bool-cases,
  Option-cases, leb, ◌==◌, All, update, row_of, row_of_self, Distinct, Distinct-update,
}
use ai_cyber_security_suite.Dispatcher.Outbox.{
  Job, JobStatus, pending, processing, Store, claim_jobs, take_over, in_jobs, eligible,
}
use ai_cyber_security_suite.Dispatcher.Outbox.Claims.{
  ident_of, chosen, chosen-Selected, in_jobs-eligible, claim_jobs-Distinct,
}
use ai_cyber_security_suite.Dispatcher.Breaker.{increment_circuit_breaker, reset_counter}
use ai_cyber_security_suite.Dispatcher.Delivery.{
  job_id, is_job, set_job, max_attempts, Outside, Outcome, success, terminal, retry, conclude_job,
  dispatch_job, record_job_success, record_job_terminal_failure, record_job_retry_or_fail, closed,
}
use ai_cyber_security_suite.Dispatcher.History.{Event, claims, dispatches, step, run}

abbrev pub is_live : JobStatus → Bool
is_live pending = true
is_live processing = true
is_live _ = false

-- A job that may still be sent has attempts left.
abbrev pub HasAttempts : Job → Type 0
HasAttempts j = is_live j.status ≡ true → j.attempt_count < max_attempts

-- Ids are distinct, and every job that may still be sent has attempts left.
abbrev pub IsBounded : List Job → Type 0
IsBounded js = Distinct ident_of js × All HasAttempts js

update-HasAttempts :
    (test : Job → Bool) (f : Job → Job) (js : List Job)
    → ((j : Job) → test j ≡ true → HasAttempts j → HasAttempts (f j))
    → All HasAttempts js
    → All HasAttempts (update test f js)
update-HasAttempts test f [] h a = tt
update-HasAttempts test f (j ∷ js) h a = elim (Bool-cases (test j)) [
  | inl e ↦ rw e (h j e a.0, update-HasAttempts test f js h a.1)
  | inr e ↦ rw e (a.0, update-HasAttempts test f js h a.1)
]

set_job-IsBounded :
    (i : ℕ) (f : Job → Job) (s : Store)
    → ((j : Job) → ident_of (f j) ≡ ident_of j)
    → ((j : Job) → HasAttempts (f j))
    → IsBounded s.outbox
    → IsBounded (set_job i f s).outbox
set_job-IsBounded i f s same ok (u, a) = (
  Distinct-update ident_of (is_job i) f same s.outbox u,
  update-HasAttempts (is_job i) f s.outbox (λ j _ _. ok j) a,
)

pub increment_outbox :
    (now user : ℕ) (is_ssrf : Bool) (s : Store)
    → (increment_circuit_breaker now user is_ssrf s).outbox ≡ s.outbox
unfolding increment_circuit_breaker
increment_outbox now user true s = ground arith
increment_outbox now user false s = ground arith

taken_over :
    (now pod : ℕ) (rows js all : List Job)
    → ((j : Job)
        → row_of ident_of j.ident all ≡ some j
        → in_jobs rows j ≡ true
        → eligible now j ≡ true)
    → All (λ j. row_of ident_of j.ident all ≡ some j) js
    → All HasAttempts js
    → All HasAttempts (update (in_jobs rows) (take_over now pod) js)
taken_over now pod rows [] all f u a = tt
taken_over now pod rows (j ∷ js) all f u a = elim (Bool-cases (in_jobs rows j)) [
  | inl e ↦
      rw e (λ _. eligible_left now j (f j u.0 e) a.0, taken_over now pod rows js all f u.1 a.1)
  | inr e ↦ rw e (a.0, taken_over now pod rows js all f u.1 a.1)
]
  where
    eligible_left :
        (now : ℕ) (j : Job) → eligible now j ≡ true → HasAttempts j → j.attempt_count < max_attempts
    eligible_left now j e h = ground arith

claim_jobs-IsBounded :
    (now pod n : ℕ) (locked : ℕ → Bool) (js : List Job)
    → IsBounded js
    → IsBounded (claim_jobs now pod n locked js).0
unfolding claim_jobs
claim_jobs-IsBounded now pod n locked js (u, a) = (
  claim_jobs-Distinct now pod n locked js u,
  taken_over now pod (chosen now pod n locked js) js js
      (λ j row m.
        in_jobs-eligible now pod n locked js (chosen now pod n locked js) j
          (chosen-Selected now pod n locked js u) row m)
      (row_of_self ident_of js u) a,
)

conclude_job-IsBounded :
    (o : Outside) (j : Job) (r : Outcome) (s : Store)
    → IsBounded s.outbox
    → IsBounded (conclude_job o j r s).outbox
unfolding conclude_job record_job_success record_job_terminal_failure record_job_retry_or_fail
    reset_counter
conclude_job-IsBounded o j success s b = set_job-IsBounded j.ident _ s (λ k. refl) (λ k e. cc) b
conclude_job-IsBounded o j (terminal why is_ssrf) s b =
    elim (Option-cases (row_of job_id j.ident s.outbox)) [
      | inl e ↦ rw e b
      | inr (k, e) ↦
          let marked = set_job-IsBounded j.ident (closed why) s (λ k. refl) (λ k e. cc) b in
          elim (Bool-cases (k.user_id == 0)) [
            | inl z ↦ rw (e, z) marked
            | inr z ↦
                rw (e, z, increment_outbox o.now k.user_id is_ssrf (set_job j.ident (closed why) s))
                  marked
          ]
    ]
conclude_job-IsBounded o j (retry why) s b = elim (Option-cases (row_of job_id j.ident s.outbox)) [
  | inl e ↦ rw e b
  | inr (k, e) ↦ elim (Bool-cases (leb max_attempts (j.attempt_count + 1))) [
    | inl z ↦
        rw (e, z, increment_outbox o.now k.user_id false _)
          (set_job-IsBounded j.ident _ s (λ k. refl) (λ k e. cc) b)
    | inr z ↦ rw (e, z) (set_job-IsBounded j.ident _ s (λ k. refl) (λ k e. ground arith) b)
  ]
]

step-IsBounded : (s : Store) (e : Event) → IsBounded s.outbox → IsBounded (step s e).outbox
unfolding step dispatch_job
step-IsBounded s (claims now pod n locked) b = claim_jobs-IsBounded now pod n locked s.outbox b
step-IsBounded s (dispatches o j) b = conclude_job-IsBounded o j _ s b

-- From an outbox with distinct ids in which every job that is pending or in process has been tried
-- fewer than three times, every history of claims and dispatches leads to such an outbox again.
pub run-IsBounded : (s : Store) (es : List Event) → IsBounded s.outbox → IsBounded (run s es).outbox
unfolding run
run-IsBounded s [] b = b
run-IsBounded s (e ∷ es) b = run-IsBounded (step s e) es (step-IsBounded s e b)
