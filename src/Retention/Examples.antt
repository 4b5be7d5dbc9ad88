-- ===== src/Retention/Examples.antt =====
-- A pass over small tables, in batches of two.
use ai_cyber_security_suite.Prelude.{
  ℕ, ◌≡◌, refl, Bool, true, ◌&&◌, false, List, [], ◌∷◌, arith, Distinct,
}
use ai_cyber_security_suite.Dispatcher.Outbox.{JobStatus, delivered, failed}
use ai_cyber_security_suite.Retention.{
  Row, id_of, prune, Tables, run_once, older, days, outbox_prunable,
}
use ai_cyber_security_suite.Retention.Pruning.{expire, IsKeyed, run_once_refines}

abbrev row : {S : Type 0} → ℕ → ℕ → S → Row S
row i t s = record { ident = i; created_at = t; status = s; content = 0 }

abbrev now : ℕ
now = days 100

abbrev outbox : List (Row JobStatus)
outbox =
    row 1 5 delivered
    ∷ row 2 6 failed
    ∷ row 3 7 delivered
    ∷ row 4 8 delivered
    ∷ row 5 (days 99) delivered
    ∷ []

abbrev tables : Tables
tables = record {
  soc_event_stream = row 1 3 tt ∷ row 2 (days 98) tt ∷ [];
  notification_outbox = outbox;
  soc_containment_actions = [];
  soc_playbook_runs = [];
}

abbrev due : Row JobStatus → Bool
due r = older (days 70) r && outbox_prunable r.status

abbrev on : ℕ → Bool
on k = true

left_rows : (prune 6 on 2 due 0 outbox 0).0 ≡ row 2 6 failed ∷ row 5 (days 99) delivered ∷ []
unfolding prune
left_rows = refl

outbox_ids : Distinct id_of outbox
outbox_ids = omega arith

event_ids : Distinct id_of tables.soc_event_stream
event_ids = omega arith

tables-IsKeyed : IsKeyed tables
tables-IsKeyed = (event_ids, outbox_ids, tt, tt)

run_once_refines_example :
    (run_once on 2 now tables ≡ expire now tables)
    × ((r : Row JobStatus)
        → r.status ≡ failed
        → (older (days 70) r && outbox_prunable r.status) ≡ false)
run_once_refines_example = run_once_refines on 2 now tables (λ k. refl) (omega arith) tables-IsKeyed
