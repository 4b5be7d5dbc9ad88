-- ===== src/Engine/Examples.antt =====
-- An engine that leads, one that was deposed, and the theorems at them.
use ai_cyber_security_suite.Prelude.{ℕ, true, false, List, [], ◌∷◌, Distinct, arith}
use ai_cyber_security_suite.Scheduler.State.{default_settings, Caller}
use ai_cyber_security_suite.Scheduler.Claims.Selection.{ident_of}
use ai_cyber_security_suite.Scheduler.Service.{elects}
use ai_cyber_security_suite.Scheduler.Examples.{stack_lock, pod_a, late_b, uuids, unlocked, table}
use ai_cyber_security_suite.Engine.{MonitoringEngine, Cycle}
use ai_cyber_security_suite.Engine.Cycles.{Turn, own, others}

abbrev leading : ℕ → MonitoringEngine
leading epoch = record {
  is_leader = true;
  current_epoch = epoch;
  running = true;
  stopping = false;
  force_enabled = false;
}

abbrev cycle_of : Caller → Cycle
cycle_of c = record {
  voter = c;
  claimer = c;
  raises = false;
  election_fails = false;
  claim_fails = false;
  uuid = uuids;
  locked = unlocked;
}

table_ids : Distinct ident_of table
table_ids = omega arith

abbrev some_turns : List (Turn stack_lock default_settings)
some_turns = own (cycle_of pod_a) ∷ others (elects late_b false) ∷ own (cycle_of pod_a) ∷ []
