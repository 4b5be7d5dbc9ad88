-- ===== src/Targets/Examples.antt =====
-- A user at the quota, and a target that is checked on demand.
use ai_cyber_security_suite.Prelude.{ℕ, suc, zero, ◌≡◌, refl, true, false, List, [], ◌∷◌, arith}
use ai_cyber_security_suite.Alerts.Model.{User}
use ai_cyber_security_suite.Scheduler.State.{sqlite, postgresql}
use ai_cyber_security_suite.Scheduler.Claims.{claimable}
use ai_cyber_security_suite.Targets.{
  Target, Registry, Registration, new_target, register_target, check_change, save, refuse,
  lease_conflict, check_now_requested, leased,
}
use ai_cyber_security_suite.Targets.Quota.{Registered, register_target-Registered}
use ai_cyber_security_suite.Targets.Leases.{check_now_exclusive}

abbrev user : User
user = record { ident = 7; is_admin = false }

abbrev registration : ℕ → Registration
registration n = record {
  now = 10;
  ident = n;
  uuid = n;
  url = 1;
  url_is_safe = true;
  domain = 2;
  check_interval_minutes = 60;
}

abbrev live : ℕ → Target
live n = new_target user (registration n)

abbrev paused : Target
paused = record (live 100) { row = record (live 100).row { is_active = false } }

-- n active targets, with the uuids below n.
abbrev fleet : ℕ → List Target
fleet zero = []
fleet (suc n) = live n ∷ fleet n

abbrev registry : Registry
registry = record { targets = paused ∷ fleet 20; audits = [] }

register_target-Registered_example :
    Registered user (registration 200) registry (register_target user (registration 200) registry)
register_target-Registered_example = register_target-Registered user (registration 200) registry

given :
    check_change postgresql 10 45 5 3 (live 1).row
    ≡ save check_now_requested (leased 10 45 5 3 (live 1).row)
unfolding check_change
given = refl

check_now_exclusive_example :
    (claimable 20 (leased 10 45 5 3 (live 1).row) ≡ false)
    × (check_change sqlite 20 45 6 4 (leased 10 45 5 3 (live 1).row) ≡ refuse lease_conflict)
check_now_exclusive_example =
    check_now_exclusive postgresql sqlite 10 20 45 5 3 45 6 4 (live 1).row
      (leased 10 45 5 3 (live 1).row) given (omega arith)
