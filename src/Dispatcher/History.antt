-- ===== src/Dispatcher/History.antt =====
-- Histories of the dispatcher: claims and dispatches of any pods, in any order.
pub mod Soundness
pub mod Attempts
use ai_cyber_security_suite.Prelude.{ℕ, Bool, List, [], ◌∷◌}
use ai_cyber_security_suite.Dispatcher.Outbox.{Job, Store, claim_jobs}
use ai_cyber_security_suite.Dispatcher.Delivery.{Outside, dispatch_job}

-- A dispatch works on a job as some claim returned it, which the table may no longer hold.
pub data Event : Type 0 where
  claims : ℕ → ℕ → ℕ → (ℕ → Bool) → Event
  dispatches : Outside → Job → Event

unfoldable pub step : Store → Event → Store
step s (claims now pod n locked) = record s { outbox = (claim_jobs now pod n locked s.outbox).0 }
step s (dispatches o j) = dispatch_job o j s

unfoldable pub run : Store → List Event → Store
run s [] = s
run s (e ∷ es) = run (step s e) es
