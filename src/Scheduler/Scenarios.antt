-- ===== src/Scheduler/Scenarios.antt =====
-- The claim and write-back theorems at concrete tables.
use ai_cyber_security_suite.Prelude.{
  ℕ, ◌≡◌, ◌≢◌, true, false, some, [], ◌∷◌, Memᴰ, refl, arith, All, Distinct,
}
use ai_cyber_security_suite.Scheduler.State.{
  sqlite, postgresql, default_settings, Db, ClaimedTarget,
}
use ai_cyber_security_suite.Scheduler.Claims.{claim_rows, claim_targets, claim_pg, as_claimed}
use ai_cyber_security_suite.Scheduler.Claims.Selection.{ident_of}
use ai_cyber_security_suite.Scheduler.Claims.Exclusive.{claim_rows_exclusive}
use ai_cyber_security_suite.Scheduler.WriteBack.{Report, write_back_result}
use ai_cyber_security_suite.Scheduler.WriteBack.Fencing.{write_back_result-reclaimed}
use ai_cyber_security_suite.Scheduler.Examples.{
  pod_a, pod_b, due, taken, table, free_world, uuids, unlocked,
}

table-Distinct : Distinct ident_of table
table-Distinct = omega arith

claim_rows_exclusive_example :
    All
      (λ cl.
        All
          (λ cl'. cl.target_id ≢ cl'.target_id)
          (claim_rows sqlite default_settings pod_b 8 uuids unlocked
            (claim_rows postgresql default_settings pod_a 7 uuids unlocked table).0).1)
      (claim_rows postgresql default_settings pod_a 7 uuids unlocked table).1
claim_rows_exclusive_example =
    claim_rows_exclusive default_settings postgresql sqlite pod_a pod_b 7 8 uuids uuids unlocked
      unlocked table table-Distinct (omega arith)

abbrev claim_four : ClaimedTarget
claim_four = as_claimed uuids 7 (due 4)

abbrev report_four : ℕ → Report
report_four token = record {
  target_id = 4;
  execution_token = token;
  execution_epoch = 7;
  last_checked_at = 3000;
  interval_minutes = 60;
  last_prediction = 1;
  last_confidence = 90;
  consecutive_failures = 0;
}

abbrev table_db : Db
table_db = free_world.db

claimed_four :
    Memᴰ claim_four (claim_targets postgresql default_settings pod_a 7 uuids unlocked table_db).1
unfolding claim_targets claim_rows claim_pg
claimed_four = Memᴰ.head refl

abbrev leased_db : Db
leased_db = record {
  scheduler_state = table_db.scheduler_state;
  monitoring_targets =
      (let t = due 4 in
        record t {
          execution_token = some 1004;
          execution_epoch = some 7;
          execution_expires_at = some 45001000;
        })
      ∷ taken
      ∷ [];
}

leased_db_accepts : (write_back_result 4000 (report_four 1004) leased_db).1 ≡ true
unfolding write_back_result
leased_db_accepts = refl

write_back_result-reclaimed_example :
    write_back_result 4000
      (report_four 555)
      (claim_targets postgresql default_settings pod_a 7 uuids unlocked table_db).0
    ≡ ((claim_targets postgresql default_settings pod_a 7 uuids unlocked table_db).0, false)
write_back_result-reclaimed_example =
    write_back_result-reclaimed postgresql default_settings pod_a 7 uuids unlocked table_db
      claim_four 4000 (report_four 555) table-Distinct claimed_four refl (omega arith)
