-- ===== src/Scheduler/Service/Fencing.antt =====
-- The fencing epoch over histories of any pods' calls.
use ai_cyber_security_suite.Prelude.{
  ℕ, ◌≤◌, ◌<◌, ◌+◌, ◌≡◌, ◌≢◌, ◌⊎◌, inl, inr, Bool, false, none, some, Option, List, [], ◌∷◌, refl,
  arith,
}
use ai_cyber_security_suite.Scheduler.State.{
  Dialect, postgresql, other, Settings, Caller, AdvisoryLock,
}
use ai_cyber_security_suite.Scheduler.Election.{
  World, attempt_election, renew_lease, release_leadership, get_current_epoch, try_advisory_lock,
  release_advisory_lock, leader_of, bootstrap_row,
}
use ai_cyber_security_suite.Scheduler.Claims.{claim_targets}
use ai_cyber_security_suite.Scheduler.WriteBack.{write_back_result}
use ai_cyber_security_suite.Scheduler.Service.{
  Operation, elects, renews, releases, claims, writes, step, run,
}

-- Each number is larger than the one before, the first larger than `n`.
abbrev pub StrictAbove : ℕ → List ℕ → Type 0
StrictAbove n [] = Unit
StrictAbove n (x ∷ xs) = (n < x) × StrictAbove x xs

StrictAbove-mono : (m n : ℕ) (xs : List ℕ) → m ≤ n → StrictAbove n xs → StrictAbove m xs
StrictAbove-mono m n [] h s = tt
StrictAbove-mono m n (x ∷ xs) h s = (omega arith, s.1)

module _ (locking : AdvisoryLock) (d : Dialect) (cfg : Settings) where
  abbrev epoch_of : World locking → ℕ
  epoch_of w = get_current_epoch w.db

  -- What a step does to the epoch: it stays, or it grows by one and is what the winner is handed.
  abbrev EpochStep : World locking → World locking × Option ℕ → Type 0
  EpochStep w r =
      ((epoch_of r.0 ≡ epoch_of w) × (r.1 ≡ none))
      ⊎ ((epoch_of r.0 ≡ epoch_of w + 1) × (r.1 ≡ some (epoch_of w + 1)))

  elects-EpochStep :
      (c : Caller) (raises : Bool) (w : World locking)
      → d ≢ other
      → EpochStep w (step locking d cfg w (elects c raises))
  unfolding step attempt_election get_current_epoch try_advisory_lock release_advisory_lock
  elects-EpochStep c raises w h = ground arith

  step-EpochStep :
      (w : World locking) (o : Operation) → d ≢ other → EpochStep w (step locking d cfg w o)
  unfolding step get_current_epoch renew_lease release_leadership release_advisory_lock
      claim_targets write_back_result
  step-EpochStep w (elects c raises) h = elects-EpochStep c raises w h
  step-EpochStep w (renews c epoch) h = ground arith
  step-EpochStep w (releases c) h = inl (refl, refl)
  step-EpochStep w (claims c epoch uuid locked) h = inl (refl, refl)
  step-EpochStep w (writes now r) h = ground arith

  -- The epoch never falls.
  pub step_epoch_grows :
      (w : World locking) (o : Operation)
      → d ≢ other
      → get_current_epoch w.db ≤ get_current_epoch (step locking d cfg w o).0.db
  step_epoch_grows w o h = elim (step-EpochStep w o h) [
    | inl (same, _) ↦ omega arith
    | inr (grown, _) ↦ omega arith
  ]

  abbrev RunEpochs : World locking → World locking × List ℕ → Type 0
  RunEpochs w r =
      StrictAbove (epoch_of w) r.1
      × (epoch_of w ≤ epoch_of r.0)
      × (r.1 ≢ [] → epoch_of w < epoch_of r.0)

  run-RunEpochs :
      (w : World locking) (os : List Operation) → d ≢ other → RunEpochs w (run locking d cfg w os)
  unfolding run
  run-RunEpochs w [] h = (tt, omega arith, λ ne. absurd (ne refl))
  run-RunEpochs w (o ∷ os) h =
      let w1 = (step locking d cfg w o).0 in
      let ih = run-RunEpochs w1 os h in
      let es = (run locking d cfg w1 os).1 in
      elim (step-EpochStep w o h) [
        | inl (same, quiet) ↦ rw quiet (rw same at ih)
        | inr (grown, e) ↦ rw e (
          (omega arith, rw grown at ih.0),
          omega (arith, ih.1, grown),
          λ ne. omega (arith, ih.1, grown),
        )
      ]

  -- In every history of calls on PostgreSQL or SQLite the epochs won are strictly increasing, and
  -- all larger than the epoch at the start.
  pub run-StrictAbove :
      (w : World locking) (os : List Operation)
      → d ≢ other
      → StrictAbove (get_current_epoch w.db) (run locking d cfg w os).1
  run-StrictAbove w os h = (run-RunEpochs w os h).0

module _ (locking : AdvisoryLock) (cfg : Settings) where
  pub renew_stale :
      (c : Caller) (epoch : ℕ) (w : World locking)
      → epoch < get_current_epoch w.db
      → (renew_lease locking postgresql cfg c epoch w).1 ≡ false
  unfolding renew_lease get_current_epoch
  renew_stale c epoch w h = ground arith

  pub elected_epoch :
      (c : Caller) (raises : Bool) (w : World locking) (n : ℕ)
      → (attempt_election locking postgresql cfg c raises w).1 ≡ leader_of n
      → get_current_epoch (attempt_election locking postgresql cfg c raises w).0.db ≡ n
  unfolding attempt_election get_current_epoch try_advisory_lock
  elected_epoch c raises w n h = ground arith

  -- A leader is deposed for good: if a pod wins epoch n on PostgreSQL, and in the history after that
  -- any election is won, then no renewal of epoch n succeeds.
  pub renew_lease_deposed :
      (c c' : Caller) (raises : Bool) (w : World locking) (n : ℕ) (os : List Operation)
      → (attempt_election locking postgresql cfg c raises w).1 ≡ leader_of n
      → (run locking postgresql cfg (attempt_election locking postgresql cfg c raises w).0 os).1
        ≢ []
      → (renew_lease locking postgresql cfg c' n
          (run locking postgresql cfg
            (attempt_election locking postgresql cfg c raises w).0
            os).0).1
        ≡ false
  renew_lease_deposed c c' raises w n os led others =
      let w1 = (attempt_election locking postgresql cfg c raises w).0 in
      renew_stale c' n (run locking postgresql cfg w1 os).0 (
        omega (
          arith,
          (run-RunEpochs locking postgresql cfg w1 os (λ e. cc)).2 others,
          elected_epoch c raises w n led,
        ))

  step_stuck :
      (t : ℕ) (w : World locking) (o : Operation)
      → w.db.scheduler_state ≡ some (bootstrap_row t)
      → ((step locking postgresql cfg w o).0.db.scheduler_state ≡ some (bootstrap_row t))
        × ((step locking postgresql cfg w o).1 ≡ none)
  unfolding step attempt_election renew_lease release_leadership claim_targets write_back_result
  step_stuck t w (elects c raises) row = ground arith
  step_stuck t w (renews c epoch) row = ground arith
  step_stuck t w (releases c) row = (row, refl)
  step_stuck t w (claims c epoch uuid locked) row = (row, refl)
  step_stuck t w (writes now r) row = ground arith

  -- On PostgreSQL, from the singleton row as the migration seeds it, no election is ever won: the
  -- UPDATE's WHERE clause compares two NULL columns, in every history of calls.
  pub run_bootstrap_stuck :
      (t : ℕ) (w : World locking) (os : List Operation)
      → w.db.scheduler_state ≡ some (bootstrap_row t)
      → ((run locking postgresql cfg w os).0.db.scheduler_state ≡ some (bootstrap_row t))
        × ((run locking postgresql cfg w os).1 ≡ [])
  unfolding run
  run_bootstrap_stuck t w [] row = (row, refl)
  run_bootstrap_stuck t w (o ∷ os) row =
      let (still, quiet) = step_stuck t w o row in
      rw quiet (run_bootstrap_stuck t (step locking postgresql cfg w o).0 os still)
