-- ===== src/Engine/Cycles.antt =====
-- What cycles of an engine keep, and what a deposed leader does.
use ai_cyber_security_suite.Prelude.{
  ℕ, ◌≤◌, ◌<◌, ◌≡◌, refl, ap, inl, inr, Bool, true, false, ◌||◌, List, [], ◌∷◌, Bool-cases, clash,
  All, All-mono, Distinct, arith,
}
use ai_cyber_security_suite.Scheduler.State.{
  Dialect, postgresql, Settings, Caller, AdvisoryLock, LeaderState,
}
use ai_cyber_security_suite.Scheduler.Election.{
  World, attempt_election, renew_lease, get_current_epoch, leader_of, try_advisory_lock,
}
use ai_cyber_security_suite.Scheduler.Claims.{claim_targets}
use ai_cyber_security_suite.Scheduler.Claims.Selection.{ident_of}
use ai_cyber_security_suite.Scheduler.Claims.Exclusive.{claim_rows-Granted}
use ai_cyber_security_suite.Scheduler.Service.Fencing.{renew_stale, elected_epoch, step_epoch_grows}
use ai_cyber_security_suite.Scheduler.Service.{Operation, step}
use ai_cyber_security_suite.Engine.{
  MonitoringEngine, Cycle, promote, demote, elect, claim_step, cycle_step,
}

module _ (locking : AdvisoryLock) (cfg : Settings) where
  refused_renewal :
      (c : Caller) (epoch : ℕ) (w : World locking)
      → (renew_lease locking postgresql cfg c epoch w).1 ≡ false
      → (renew_lease locking postgresql cfg c epoch w).0.db ≡ w.db
  unfolding renew_lease
  refused_renewal c epoch w h = ground arith

  -- A leader that another election has deposed steps down in its next cycle on PostgreSQL, unless its
  -- renewal fails with an error: it becomes a follower of epoch 0, claims no target, and leaves the
  -- database as it was.
  pub cycle_step_deposed :
      (k : Cycle) (w : World locking) (e : MonitoringEngine)
      → e.is_leader ≡ true
      → k.election_fails ≡ false
      → e.current_epoch < get_current_epoch w.db
      → ((cycle_step locking postgresql cfg k w e).0.1 ≡ demote e)
        × ((cycle_step locking postgresql cfg k w e).1 ≡ [])
        × ((cycle_step locking postgresql cfg k w e).0.0.db ≡ w.db)
  unfolding cycle_step elect claim_step
  cycle_step_deposed k w e leads works old =
      let refused = renew_stale locking cfg k.voter e.current_epoch w old in
      rw (works, leads, refused) (refl, refl, refused_renewal k.voter e.current_epoch w refused)

  -- A follower has epoch 0, and a leader's epoch is not ahead of the database's.
  abbrev pub IsFenced : World locking → MonitoringEngine → Type 0
  IsFenced w e =
      (e.is_leader ≡ false → e.current_epoch ≡ 0)
      × (e.is_leader ≡ true → e.current_epoch ≤ get_current_epoch w.db)

  renewed_epoch :
      (c : Caller) (epoch : ℕ) (w : World locking)
      → get_current_epoch (renew_lease locking postgresql cfg c epoch w).0.db
        ≡ get_current_epoch w.db
  unfolding renew_lease get_current_epoch
  renewed_epoch c epoch w = ground arith

  leader_eta : (s : LeaderState) → s.is_leader ≡ true → s ≡ leader_of s.epoch
  leader_eta s h = ap (λ b. record { is_leader = b; epoch = s.epoch }) h

  follower_lost :
      (c : Caller) (raises : Bool) (w : World locking) (e : MonitoringEngine)
      → e.is_leader ≡ false
      → IsFenced w e
      → IsFenced
          (attempt_election locking postgresql cfg c raises w).0
          (promote (attempt_election locking postgresql cfg c raises w).1 e)
  follower_lost c raises w e follows i =
      elim (Bool-cases (attempt_election locking postgresql cfg c raises w).1.is_leader) [
        | inl won ↦
            rw won (
              λ h. cc,
              λ h. omega (arith, elected_epoch locking cfg c raises w _ (leader_eta _ won)),
            )
        | inr lost ↦ rw lost (i.0, λ h. absurd (clash _ h follows))
      ]

  elect-IsFenced :
      (k : Cycle) (w : World locking) (e : MonitoringEngine)
      → IsFenced w e
      → IsFenced (elect locking postgresql cfg k w e).0 (elect locking postgresql cfg k w e).1
  unfolding elect
  elect-IsFenced k w e i = elim (Bool-cases k.election_fails) [
    | inl fails ↦ rw fails i
    | inr works ↦ elim (Bool-cases e.is_leader) [
      | inr follows ↦ simp (works, follows) (follower_lost k.voter k.raises w e follows i)
      | inl leads ↦
          elim (Bool-cases (renew_lease locking postgresql cfg k.voter e.current_epoch w).1) [
            | inl renewed ↦
                rw (works, leads, renewed)
                  (λ h. cc, λ h. omega (arith, i.1 leads, renewed_epoch k.voter e.current_epoch w))
            | inr gone ↦ rw (works, leads, gone) (λ h. refl, λ h. cc)
          ]
    ]
  ]

  -- Cycles of one engine, between any calls of other pods.
  pub data Turn : Type 0 where
    own : Cycle → Turn
    others : Operation → Turn

  abbrev pub turn : World locking → MonitoringEngine → Turn → World locking × MonitoringEngine
  turn w e (own k) = (cycle_step locking postgresql cfg k w e).0
  turn w e (others o) = ((step locking postgresql cfg w o).0, e)

  unfoldable pub turns :
      World locking → MonitoringEngine → List Turn → World locking × MonitoringEngine
  turns w e [] = (w, e)
  turns w e (t ∷ ts) = let (w', e') = turn w e t in turns w' e' ts

  claim_epoch :
      (k : Cycle) (w : World locking) (e : MonitoringEngine)
      → get_current_epoch (claim_step locking postgresql cfg k w e).0.db ≡ get_current_epoch w.db
  unfolding claim_step claim_targets get_current_epoch
  claim_epoch k w e = ground arith

  turn-IsFenced :
      (w : World locking) (e : MonitoringEngine) (t : Turn)
      → IsFenced w e
      → IsFenced (turn w e t).0 (turn w e t).1
  unfolding cycle_step
  turn-IsFenced w e (own k) i =
      let j = elect-IsFenced k w e i in
      (
        j.0,
        λ h. omega (
          arith,
          j.1 h,
          claim_epoch k (elect locking postgresql cfg k w e).0
              (elect locking postgresql cfg k w e).1,
        ),
      )
  turn-IsFenced w e (others o) i =
      (i.0, λ h. omega (arith, i.1 h, step_epoch_grows locking postgresql cfg w o (λ e. cc)))

  -- On PostgreSQL, over any cycles of an engine between any calls of other pods: if at the start a
  -- follower has epoch 0 and a leader's epoch is not ahead of the database's, then so at the end.
  pub turns-IsFenced :
      (w : World locking) (e : MonitoringEngine) (ts : List Turn)
      → IsFenced w e
      → IsFenced (turns w e ts).0 (turns w e ts).1
  unfolding turns
  turns-IsFenced w e [] i = i
  turns-IsFenced w e (t ∷ ts) i =
      turns-IsFenced (turn w e t).0 (turn w e t).1 ts (turn-IsFenced w e t i)

module _ (locking : AdvisoryLock) (d : Dialect) (cfg : Settings) where
  elect_targets :
      (k : Cycle) (w : World locking) (e : MonitoringEngine)
      → (elect locking d cfg k w e).0.db.monitoring_targets ≡ w.db.monitoring_targets
  unfolding elect attempt_election try_advisory_lock renew_lease
  elect_targets k w e = ground arith

  -- Where the ids of the targets are distinct, an engine hands its workers only targets that it claimed
  -- as a leader, under the epoch that it holds after the election of the same cycle.
  pub cycle_step_epoch :
      (k : Cycle) (w : World locking) (e : MonitoringEngine)
      → Distinct ident_of w.db.monitoring_targets
      → All
          (λ cl.
            ((cycle_step locking d cfg k w e).0.1.is_leader ≡ true)
            × (cl.execution_epoch ≡ (cycle_step locking d cfg k w e).0.1.current_epoch))
          (cycle_step locking d cfg k w e).1
  unfolding cycle_step claim_step claim_targets
  cycle_step_epoch k w e u =
      let w1 = (elect locking d cfg k w e).0 in
      let e1 = (elect locking d cfg k w e).1 in
      elim (Bool-cases e1.is_leader) [
        | inr follows ↦ rw follows tt
        | inl leads ↦ elim (Bool-cases (e1.stopping || k.claim_fails)) [
          | inl idle ↦ rw (leads, idle) tt
          | inr busy ↦
              rw (leads, busy)
                (All-mono _ _ (λ cl g. (refl, ap (λ x. x.execution_epoch) g.3)) _
                  (claim_rows-Granted cfg k.claimer e1.current_epoch k.uuid k.locked
                    w1.db.monitoring_targets d (rw (elect_targets k w e) u)))
        ]
      ]
