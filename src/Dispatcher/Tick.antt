-- ===== src/Dispatcher/Tick.antt =====
-- One cycle of the dispatcher (tick): a claim, and the claimed jobs dispatched one after the other.
use ai_cyber_security_suite.Prelude.{
  ℕ, Bool, ◌≡◌, refl, inl, inr, List, [], ◌∷◌, if◌then◌else◌, Bool-cases, length,
}
use ai_cyber_security_suite.Dispatcher.Outbox.{Job, Store, claim_jobs}
use ai_cyber_security_suite.Dispatcher.Delivery.{Outside, dispatch_job}
use ai_cyber_security_suite.Dispatcher.History.{Event, claims, dispatches, step, run}
use ai_cyber_security_suite.Dispatcher.Breaker.Trips.{Breaker}
use ai_cyber_security_suite.Dispatcher.History.Soundness.{run-Breaker}

-- `raises` says which dispatches end in an error before they write; it is logged and the loop goes on.
unfoldable pub dispatch_each : (Job → Outside) → (Job → Bool) → List Job → Store → Store
dispatch_each o raises [] s = s
dispatch_each o raises (j ∷ js) s =
    dispatch_each o raises js (if raises j then s else dispatch_job (o j) j s)

-- With the number of jobs claimed.
unfoldable pub tick : ℕ → ℕ → ℕ → (ℕ → Bool) → (Job → Outside) → (Job → Bool) → Store → Store × ℕ
unfolding dispatch_each
tick now pod batch_size locked o raises s =
    let (jobs, claimed) = claim_jobs now pod batch_size locked s.outbox in
    (dispatch_each o raises claimed (record s { outbox = jobs }), length claimed)

abbrev pub deliveries : (Job → Outside) → (Job → Bool) → List Job → List Event
deliveries o raises [] = []
deliveries o raises (j ∷ js) =
    let rest = deliveries o raises js in if raises j then rest else dispatches (o j) j ∷ rest

dispatch_each-run :
    (o : Job → Outside) (raises : Job → Bool) (js : List Job) (s : Store)
    → dispatch_each o raises js s ≡ run s (deliveries o raises js)
unfolding dispatch_each run step
dispatch_each-run o raises [] s = refl
dispatch_each-run o raises (j ∷ js) s = elim (Bool-cases (raises j)) [
  | inl e ↦ rw e (dispatch_each-run o raises js s)
  | inr e ↦ rw e (dispatch_each-run o raises js (dispatch_job (o j) j s))
]

-- A cycle is a history of one claim and the dispatches of the claimed jobs.
pub tick-run :
    (now pod batch_size : ℕ) (locked : ℕ → Bool) (o : Job → Outside) (raises : Job → Bool)
    (s : Store)
    → (tick now pod batch_size locked o raises s).0
      ≡ run s (
          claims now pod batch_size locked
          ∷ deliveries o raises (claim_jobs now pod batch_size locked s.outbox).1)
unfolding tick run step
tick-run now pod batch_size locked o raises s =
    let (jobs, claimed) = claim_jobs now pod batch_size locked s.outbox in
    dispatch_each-run o raises claimed (record s { outbox = jobs })

-- A cycle keeps a user's breaker sound.
pub tick-Breaker :
    (now pod batch_size : ℕ) (locked : ℕ → Bool) (o : Job → Outside) (raises : Job → Bool)
    → (user : ℕ) (s : Store) → Breaker user s
    → Breaker user (tick now pod batch_size locked o raises s).0
tick-Breaker now pod batch_size locked o raises user s b =
    rw (tick-run now pod batch_size locked o raises s) (run-Breaker user s _ b)
