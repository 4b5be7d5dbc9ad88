-- ===== src/Worker/Checks.antt =====
-- The fence at the end of a check, and the failures new_failures_lem over a sequence of checks.
use ai_cyber_security_suite.Prelude.{
  ℕ, ◌+◌, ◌≤◌, ◌≡◌, ◌↔◌, ◌⊎◌, ◌∙◌, refl, inl, inr, Bool, true, false, not, ◌||◌, List, [], ◌∷◌,
  if◌then◌else◌, Bool-cases, any, length, arith,
}
use ai_cyber_security_suite.Scheduler.State.{ClaimedTarget}
use ai_cyber_security_suite.Scheduler.WriteBack.{holds_lease, validate_lease, write_back_result}
use ai_cyber_security_suite.Worker.{
  ProbeResult, is_ssrf, Prediction, Outcome, classify_outcome, Observation, Store, settle,
  finish_check,
}

settle_same :
    (v : Observation) (t : ClaimedTarget) (o : Outcome) (s : Store)
    → ((settle v t o s).1
        ≡ validate_lease v.clock t.target_id t.execution_token t.execution_epoch s.db)
      × ((settle v t o s).1 ≡ false → (settle v t o s).0 ≡ s)
unfolding settle write_back_result validate_lease
settle_same v t o s =
    elim (Bool-cases (
      any (holds_lease v.clock t.target_id t.execution_token t.execution_epoch)
        s.db.monitoring_targets)) [ inl e ↦ rw e (refl, λ h. cc) | inr e ↦ rw e (refl, λ h. refl) ]

-- A check is written back exactly when no error ended it and the worker still holds the lease at that
-- time; else it changes nothing: no result, no suspension, no audit event and no notice.
pub finish_check_fenced :
    (v : Observation) (t : ClaimedTarget) (failures : ℕ) (s : Store)
    → (((finish_check v t failures s).1 ≡ true)
        ↔ (v.pipeline_raises ≡ false)
          × (validate_lease v.clock t.target_id t.execution_token t.execution_epoch s.db ≡ true))
      × ((finish_check v t failures s).1 ≡ false → (finish_check v t failures s).0 ≡ s)
unfolding finish_check
finish_check_fenced v t failures s = elim (Bool-cases v.pipeline_raises) [
  | inl e ↦ rw e ((λ h. cc, λ h. cc), λ h. refl)
  | inr e ↦
      let (lease, same) =
        settle_same v t (classify_outcome v.probe v.prediction v.confidence failures) s in
      rw (e, lease) ((λ h. (refl, h), λ h. h.1), λ h. same (rw lease h))
]

-- A probe that counts as a failure.
abbrev pub fails : ProbeResult → Bool
fails p = is_ssrf p.failure_category || not p.success

-- The count that checks leave, one after the other.
abbrev pub failures_after : ℕ → List Observation → ℕ
failures_after n [] = n
failures_after n (v ∷ vs) =
    failures_after (classify_outcome v.probe v.prediction v.confidence n).new_failures vs

abbrev pub all_fail : List Observation → Bool
all_fail [] = true
all_fail (v ∷ vs) = let rest = all_fail vs in if fails v.probe then rest else false

-- The length of the longest end of a list of checks in which every probe failed.
abbrev pub failing_end : List Observation → ℕ
failing_end [] = 0
failing_end (v ∷ vs) =
    let shorter = failing_end vs in if all_fail (v ∷ vs) then length (v ∷ vs) else shorter

failing_end-all : (vs : List Observation) → all_fail vs ≡ true → failing_end vs ≡ length vs
failing_end-all [] h = refl
failing_end-all (v ∷ vs) h = rw h refl

new_failures_lem :
    (p : ProbeResult) (q : Prediction) (c n : ℕ)
    → (classify_outcome p q c n).new_failures ≡ (if fails p then n + 1 else 0)
unfolding classify_outcome
new_failures_lem p q c n = ground arith

failures_after_lem :
    (n : ℕ) (vs : List Observation)
    → failures_after n vs ≡ (if all_fail vs then n + length vs else failing_end vs)
failures_after_lem n [] = omega arith
failures_after_lem n (v ∷ vs) = elim (Bool-cases (fails v.probe)) [
  | inl f ↦
      rw (f, new_failures_lem v.probe v.prediction v.confidence n, f, failures_after_lem (n + 1) vs)
        (elim (Bool-cases (all_fail vs)) [ inl e ↦ rw e (omega arith) | inr e ↦ rw e refl ])
  | inr k ↦
      rw (k, new_failures_lem v.probe v.prediction v.confidence n, k, failures_after_lem 0 vs)
        (elim (Bool-cases (all_fail vs)) [
          | inl e ↦ rw e (omega (arith, failing_end-all vs e))
          | inr e ↦ rw e refl
        ])
]

failures_after_zero : (vs : List Observation) → failures_after 0 vs ≡ failing_end vs
failures_after_zero vs = elim (Bool-cases (all_fail vs)) [
  | inl e ↦ failures_after_lem 0 vs ∙ rw e (omega (arith, failing_end-all vs e))
  | inr e ↦ failures_after_lem 0 vs ∙ rw e refl
]

suspends :
    (p : ProbeResult) (q : Prediction) (c n : ℕ)
    → ((classify_outcome p q c n).is_suspension ≡ true)
      ↔ ((is_ssrf p.failure_category ≡ true) ⊎ ((p.success ≡ false) × (4 ≤ n)))
unfolding classify_outcome
suspends p q c n = ground arith

-- After any sequence of written checks of a new target the failure count is the number of failed probes
-- since its last success, and the next check suspends the target exactly when its destination is blocked
-- as a request forgery, or its probe fails after four or more failures in a row.
pub checks_suspend_iff :
    (vs : List Observation) (p : ProbeResult) (q : Prediction) (c : ℕ)
    → (failures_after 0 vs ≡ failing_end vs)
      × (((classify_outcome p q c (failures_after 0 vs)).is_suspension ≡ true)
          ↔ ((is_ssrf p.failure_category ≡ true) ⊎ ((p.success ≡ false) × (4 ≤ failing_end vs))))
checks_suspend_iff vs p q c =
    (failures_after_zero vs, rw (failures_after_zero vs) (suspends p q c (failing_end vs)))
