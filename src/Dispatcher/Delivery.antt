-- ===== src/Dispatcher/Delivery.antt =====
-- The delivery of one claimed job (_dispatch_job) and the write-back of its outcome. What the network
-- and the cipher answer are arguments: security_network.py's verdict on the destination, the HTTP
-- reply, and the secret's decryption. Headers and the signature do not change the tables.
pub mod Outcomes
use ai_cyber_security_suite.Prelude.{
  ℕ, ◌+◌, ◌-◌, ◌*◌, ◌^◌, min, Bool, true, false, not, ◌||◌, ◌&&◌, Option, none, some, List, [], ◌∷◌,
  if◌then◌else◌, leb, ltb, ◌==◌, find, update, or_else, is_none, row_of,
}
use ai_cyber_security_suite.Dispatcher.Outbox.{
  Job, pending, processing, delivered, failed, Reason, preference_missing, disabled_or_broken,
  secret_missing, secret_unreadable, ssrf_blocked, dns_failed, redirected, client_error,
  server_error, timed_out, transport_error, exhausted, Secret, plain, sealed, Preference, Store,
  seconds,
}
use ai_cyber_security_suite.Dispatcher.Breaker.{user_of, increment_circuit_breaker, reset_counter}

abbrev pub max_attempts : ℕ
max_attempts = 3

abbrev pub job_id : Job → ℕ
job_id j = j.ident

abbrev pub is_job : ℕ → Job → Bool
is_job i j = j.ident == i

-- `sess.get(NotificationOutbox, job_id)` and assignments to what it returns.
abbrev pub set_job : ℕ → (Job → Job) → Store → Store
set_job i f s = record s { outbox = update (is_job i) f s.outbox }

unfoldable pub record_job_success : ℕ → ℕ → ℕ → Store → Store
record_job_success now job user s = reset_counter user (
    set_job job
      (λ j. record j {
        status = delivered;
        delivered_at = some now;
        last_error = none;
        locked_at = none;
        locked_by = none;
      })
      s)

abbrev pub closed : Reason → Job → Job
closed why j = record j {
  status = failed;
  last_error = some why;
  locked_at = none;
  locked_by = none;
}

-- `if user_id:` is false for a missing job and for user 0.
unfoldable pub fail_job : ℕ → ℕ → Reason → Bool → Option Job → Store → Store
fail_job now job why is_ssrf none s = s
fail_job now job why is_ssrf (some j) s =
    let marked = set_job job (closed why) s in
    if j.user_id == 0 then marked else increment_circuit_breaker now j.user_id is_ssrf marked

unfoldable pub record_job_terminal_failure : ℕ → ℕ → Reason → Bool → Store → Store
unfolding fail_job
record_job_terminal_failure now job why is_ssrf s =
    fail_job now job why is_ssrf (row_of job_id job s.outbox) s

-- `min(60.0, 5.0 * (2 ** (new_attempt - 1)))` seconds, and the jitter drawn.
unfoldable pub backoff : ℕ → ℕ → ℕ
backoff new_attempt jitter = min (seconds 60) (seconds 5 * 2 ^ (new_attempt - 1)) + jitter

abbrev pub exhaust : Reason → ℕ → Job → Job
exhaust why new_attempt j = record j {
  status = failed;
  attempt_count = new_attempt;
  last_error = some (exhausted why);
  locked_at = none;
  locked_by = none;
}

abbrev pub reschedule : ℕ → Reason → ℕ → Job → Job
reschedule at why new_attempt j = record j {
  status = pending;
  attempt_count = new_attempt;
  next_attempt_at = at;
  last_error = some why;
  locked_at = none;
  locked_by = none;
}

unfoldable pub retry_job : ℕ → ℕ → ℕ → Reason → ℕ → Option Job → Store → Store
retry_job now jitter job why new_attempt none s = s
retry_job now jitter job why new_attempt (some j) s =
    if leb max_attempts new_attempt
    then increment_circuit_breaker now j.user_id false (set_job job (exhaust why new_attempt) s)
    else set_job job (reschedule (now + backoff new_attempt jitter) why new_attempt) s

unfoldable pub record_job_retry_or_fail : ℕ → ℕ → ℕ → Reason → ℕ → Store → Store
unfolding retry_job
record_job_retry_or_fail now jitter job why current_attempt s =
    retry_job now jitter job why (current_attempt + 1) (row_of job_id job s.outbox) s

-- The verdict of validate_target_url and resolve_and_validate_host.
pub data Egress : Type 0 where
  blocked unresolved resolved : Egress

pub data Reply : Type 0 where
  responded : ℕ → Reply
  no_reply_in_time broken_transport : Reply

-- What one dispatch meets outside the program.
pub record Outside : Type 0 where
  pub now : ℕ
  pub jitter : ℕ
  pub decrypts : ℕ → Bool
  pub egress : Egress
  pub reply : Reply

-- How a dispatch ends.
pub data Outcome : Type 0 where
  success : Outcome
  terminal : Reason → Bool → Outcome
  retry : Reason → Outcome

abbrev pub classify_status : ℕ → Outcome
classify_status code =
    if leb 200 code && ltb code 300
    then success
    else if leb 300 code && ltb code 400
    then terminal (redirected code) false
    else if leb 400 code && ltb code 500
    then terminal (client_error code) false
    else retry (server_error code)

abbrev pub classify_reply : Reply → Outcome
classify_reply (responded code) = classify_status code
classify_reply no_reply_in_time = retry timed_out
classify_reply broken_transport = retry transport_error

abbrev pub classify_egress : Egress → Reply → Outcome
classify_egress blocked r = terminal ssrf_blocked true
classify_egress unresolved r = retry dns_failed
classify_egress resolved r = classify_reply r

abbrev pub readable : Outside → Secret → Bool
readable o (plain k) = true
readable o (sealed k) = o.decrypts k

abbrev pub classify_secret : Outside → Option Secret → Outcome
classify_secret o none = terminal secret_missing false
classify_secret o (some k) =
    if readable o k then classify_egress o.egress o.reply else terminal secret_unreadable false

-- The checks of a dispatch, in their order.
unfoldable pub classify : Outside → Option Preference → Outcome
classify o none = terminal preference_missing false
classify o (some p) =
    if not p.webhook_enabled || p.circuit_broken
    then terminal disabled_or_broken false
    else classify_secret o (or_else p.encrypted_webhook_secret p.webhook_secret)

unfoldable pub conclude_job : Outside → Job → Outcome → Store → Store
conclude_job o j success s = record_job_success o.now j.ident j.user_id s
conclude_job o j (terminal why is_ssrf) s = record_job_terminal_failure o.now j.ident why is_ssrf s
conclude_job o j (retry why) s =
    record_job_retry_or_fail o.now o.jitter j.ident why j.attempt_count s

-- `j` is the job as it was claimed.
unfoldable pub dispatch_job : Outside → Job → Store → Store
unfolding conclude_job
dispatch_job o j s = conclude_job o j (classify o (row_of user_of j.user_id s.preferences)) s
