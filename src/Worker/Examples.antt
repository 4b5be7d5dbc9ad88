-- ===== src/Worker/Examples.antt =====
-- Checks of a claimed target, at concrete observations.
use ai_cyber_security_suite.Prelude.{◌≡◌, true, false, none, some, List, [], ◌∷◌, refl}
use ai_cyber_security_suite.Scheduler.State.{ClaimedTarget}
use ai_cyber_security_suite.Scheduler.WriteBack.{write_back_result}
use ai_cyber_security_suite.Scheduler.Examples.{free_world}
use ai_cyber_security_suite.Worker.{
  ProbeResult, connection_timeout, unknown, classify_outcome, Observation, Store, settle,
  finish_check,
}

abbrev timeout : ProbeResult
timeout = record { success = false; failure_category = some connection_timeout }

abbrev answer : ProbeResult
answer = record { success = true; failure_category = none }

abbrev seen : ProbeResult → Observation
seen p = record {
  probe = p;
  prediction = unknown;
  confidence = 0;
  label = 1;
  clock = 4000;
  now_dt = 4000;
  pipeline_raises = false;
  notified = true;
}

abbrev claimed : ClaimedTarget
claimed = record {
  target_id = 5;
  url = 100;
  normalized_domain = 200;
  check_interval_minutes = 60;
  execution_token = 99;
  execution_epoch = 6;
  user_id = 3;
}

abbrev store : Store
store = record { db = free_world.db; audits = []; suspension_notices = [] }

-- The fifth failure in a row is written back and suspends the target.
suspended_notices :
    ((finish_check (seen timeout) claimed 4 store).0.suspension_notices ≡ 5 ∷ [])
    × ((finish_check (seen timeout) claimed 4 store).1 ≡ true)
unfolding finish_check settle classify_outcome write_back_result
suspended_notices = (refl, refl)

abbrev checks : List Observation
checks = seen answer ∷ seen timeout ∷ seen timeout ∷ seen timeout ∷ seen timeout ∷ []
