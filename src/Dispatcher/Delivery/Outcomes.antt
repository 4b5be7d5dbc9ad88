-- ===== src/Dispatcher/Delivery/Outcomes.antt =====
-- When a dispatch delivers, and when it tries again.
use ai_cyber_security_suite.Prelude.{
  ℕ, ◌+◌, ◌-◌, ◌^◌, ◌≤◌, ◌<◌, ◌≡◌, ◌↔◌, ◌∙◌, inl, inr, zero, suc, Bool, true, false, Option, none,
  some, refl, arith, if◌then◌else◌, Bool-cases, leb, ◌==◌, or_else, row_of, row_of-update,
  row_of-key,
}
use native.Mathlib.Nat.{pow-suc}
use ai_cyber_security_suite.Dispatcher.Outbox.{Job, delivered, Secret, Preference, Store}
use ai_cyber_security_suite.Dispatcher.Breaker.{user_of, reset_counter}
use ai_cyber_security_suite.Dispatcher.History.Attempts.{increment_outbox}
use ai_cyber_security_suite.Dispatcher.Delivery.{
  job_id, is_job, set_job, max_attempts, backoff, resolved, Reply, responded, Outside, Outcome,
  success, terminal, retry, readable, classify, conclude_job, dispatch_job, record_job_success,
  record_job_terminal_failure, record_job_retry_or_fail, closed, exhaust, reschedule,
}

abbrev pub status_code : Reply → ℕ
status_code (responded code) = code
status_code _ = 0

abbrev pub can_open : Outside → Option Secret → Bool
can_open o none = false
can_open o (some k) = readable o k

-- Everything that a delivery takes.
pub record Delivers (o : Outside) (p : Preference) : Type 0 where
  pub enabled : p.webhook_enabled ≡ true
  pub unbroken : p.circuit_broken ≡ false
  pub opened : can_open o (or_else p.encrypted_webhook_secret p.webhook_secret) ≡ true
  pub allowed : o.egress ≡ resolved
  pub replied : o.reply ≡ responded (status_code o.reply)
  pub lower : 200 ≤ status_code o.reply
  pub upper : status_code o.reply < 300

classify-Delivers : (o : Outside) (p : Preference) → (classify o (some p) ≡ success) ↔ Delivers o p
unfolding classify
classify-Delivers o p = (λ h. ground arith, λ d. ground arith)

outbox_row :
    (i : ℕ) (f : Job → Job) (s : Store) (k : Job)
    → ((j : Job) → job_id (f j) ≡ job_id j)
    → row_of job_id i s.outbox ≡ some k
    → row_of job_id i (set_job i f s).outbox ≡ some (f k)
outbox_row i f s k same row =
    row_of-update job_id (is_job i) f same i s.outbox k row
    ∙ ground (arith, row_of-key job_id i s.outbox k row)

-- The row of the job after each outcome.
abbrev pub settled : Outside → Job → Outcome → Job → Job
settled o j success k = record k {
  status = delivered;
  delivered_at = some o.now;
  last_error = none;
  locked_at = none;
  locked_by = none;
}
settled o j (terminal why is_ssrf) k = closed why k
settled o j (retry why) k =
    if leb max_attempts (j.attempt_count + 1)
    then exhaust why (j.attempt_count + 1) k
    else reschedule (o.now + backoff (j.attempt_count + 1) o.jitter) why (j.attempt_count + 1) k

conclude_job_row :
    (o : Outside) (j k : Job) (r : Outcome) (s : Store)
    → row_of job_id j.ident s.outbox ≡ some k
    → row_of job_id j.ident (conclude_job o j r s).outbox ≡ some (settled o j r k)
unfolding conclude_job record_job_success record_job_terminal_failure record_job_retry_or_fail
    reset_counter
conclude_job_row o j k success s row = outbox_row j.ident _ s k (λ x. refl) row
conclude_job_row o j k (terminal why is_ssrf) s row =
    let marked = outbox_row j.ident (closed why) s k (λ x. refl) row in
    elim (Bool-cases (k.user_id == 0)) [
      | inl z ↦ rw (row, z) marked
      | inr z ↦
          rw (row, z, increment_outbox o.now k.user_id is_ssrf (set_job j.ident (closed why) s))
            marked
    ]
conclude_job_row o j k (retry why) s row =
    elim (Bool-cases (leb max_attempts (j.attempt_count + 1))) [
      | inl z ↦
          rw
            (
              row,
              z,
              increment_outbox o.now k.user_id false
                  (set_job j.ident (exhaust why (j.attempt_count + 1)) s),
            )
            (outbox_row j.ident (exhaust why (j.attempt_count + 1)) s k (λ x. refl) row)
      | inr z ↦ rw (row, z) (outbox_row j.ident _ s k (λ x. refl) row)
    ]

settled_delivered :
    (o : Outside) (j k : Job) (r : Outcome) → ((settled o j r k).status ≡ delivered) ↔ (r ≡ success)
settled_delivered o j k success = ground arith
settled_delivered o j k (terminal why is_ssrf) = ground arith
settled_delivered o j k (retry why) = ground arith

dispatch_job_row :
    (o : Outside) (j k : Job) (p : Preference) (s : Store)
    → row_of job_id j.ident s.outbox ≡ some k
    → row_of user_of j.user_id s.preferences ≡ some p
    → row_of job_id j.ident (dispatch_job o j s).outbox ≡ some (settled o j (classify o (some p)) k)
unfolding dispatch_job
dispatch_job_row o j k p s row pref = rw pref (conclude_job_row o j k (classify o (some p)) s row)

-- A dispatch of a job in the outbox whose user has preferences leaves the job delivered exactly if
-- the webhook is enabled, the breaker is closed, the secret opens, the destination is allowed, and
-- the reply is 2xx.
pub dispatch_job-Delivers_iff :
    (o : Outside) (j k : Job) (p : Preference) (s : Store)
    → row_of job_id j.ident s.outbox ≡ some k
    → row_of user_of j.user_id s.preferences ≡ some p
    → ((k' : Job) × (row_of job_id j.ident (dispatch_job o j s).outbox ≡ some k')
        × (k'.status ≡ delivered))
      ↔ Delivers o p
dispatch_job-Delivers_iff o j k p s row pref =
    let after = dispatch_job_row o j k p s row pref in
    (
      λ d.
          (classify-Delivers o p).0
            ((settled_delivered o j k (classify o (some p))).0 (ground (arith, after, d.1, d.2))),
      λ d. (
        settled o j (classify o (some p)) k,
        after,
        (settled_delivered o j k (classify o (some p))).1 ((classify-Delivers o p).1 d),
      ),
    )

two_pow : (n : ℕ) → 1 ≤ 2 ^ n
two_pow zero = omega arith
two_pow (suc n) = simp pow-suc (omega (arith, two_pow n))

-- A retry waits between 5.5 and 62 seconds, for a jitter between 0.5 and 2 seconds.
pub backoff_bounds :
    (n jitter : ℕ)
    → 500000 ≤ jitter
    → jitter ≤ 2000000
    → (5500000 ≤ backoff n jitter) × (backoff n jitter ≤ 62000000)
unfolding backoff
backoff_bounds n jitter lo hi = omega (arith, two_pow (n - 1))
