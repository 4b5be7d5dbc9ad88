-- ===== src/Targets/Leases.antt =====
-- The lease of an on-demand check, on both dialects, beside the scheduler's claims.
use ai_cyber_security_suite.Prelude.{
  ℕ, ◌+◌, ◌≤◌, ◌≡◌, ◌⊎◌, refl, sym, ◌∙◌, subst, ap, get_or, find, inl, inr, Bool, true, false, not,
  ◌&&◌, Option, none, some, leb, Bool-cases, if-cases, arith,
}
use ai_cyber_security_suite.Alerts.Model.{User}
use ai_cyber_security_suite.Scheduler.State.{
  Dialect, sqlite, postgresql, other, MonitoringTarget, seconds,
}
use ai_cyber_security_suite.Scheduler.Claims.{claimable}
use ai_cyber_security_suite.Targets.{
  lease_conflict, check_now_requested, Change, refuse, leave, save, is_free, leased, in_flight,
  claim_lease, check_change, Target, Registry, reaches, get_target_by_uuid, on_found, carried_out,
  trigger_check_now,
}

free_is_idle : (now : ℕ) (r : MonitoringTarget) → is_free now r ≡ true → in_flight now r ≡ false
free_is_idle now r h = ground arith

both :
    (now : ℕ) (r : MonitoringTarget)
    → (is_free now r ≡ true) ⊎ (is_free now r ≡ false)
    → not (in_flight now r) && (r.is_active && is_free now r) ≡ r.is_active && is_free now r
both now r (inl free) = rw (free_is_idle now r free) refl
both now r (inr taken) = rw taken (ground arith)

-- A lease that SQLite's two steps give is the one that PostgreSQL's single UPDATE gives, and the other
-- way round.
same_claim :
    (d : Dialect) (now : ℕ) (r : MonitoringTarget)
    → claim_lease d now r ≡ claim_lease postgresql now r
same_claim postgresql now r = refl
same_claim sqlite now r = both now r (Bool-cases (is_free now r))
same_claim other now r = both now r (Bool-cases (is_free now r))

same_change :
    (d : Dialect) (now lease_seconds token epoch : ℕ) (r : MonitoringTarget)
    → check_change d now lease_seconds token epoch r
      ≡ check_change postgresql now lease_seconds token epoch r
unfolding check_change
same_change d now lease_seconds token epoch r = rw (same_claim d now r) refl

-- An on-demand check has the same outcome on every dialect: the SELECT and the UPDATE of the SQLite
-- path give the lease exactly where the one UPDATE of the PostgreSQL path does, and are refused alike.
pub trigger_check_now_dialects :
    (d : Dialect) (now lease_seconds : ℕ) (u : User) (uuid token : ℕ) (epoch : Option ℕ)
    (s : Registry)
    → trigger_check_now d now lease_seconds u uuid token epoch s
      ≡ trigger_check_now postgresql now lease_seconds u uuid token epoch s
unfolding trigger_check_now get_target_by_uuid
trigger_check_now_dialects d now lease_seconds u uuid token epoch s =
    go (find (reaches u uuid) s.targets)
  where
    go :
        (q : Option Target)
        → on_found u (check_change d now lease_seconds token (get_or epoch 1)) s q
          ≡ on_found u (check_change postgresql now lease_seconds token (get_or epoch 1)) s q
    go none = refl
    go (some g) =
        ap (carried_out u s g) (same_change d now lease_seconds token (get_or epoch 1) g.row)

active_of : (b : Bool) → not b ≡ false → b ≡ true
active_of b h = ground arith

abbrev Saves : Change → MonitoringTarget → Type 0
Saves (save a r) b = r ≡ b
Saves leave b = ⊥
Saves (refuse e) b = ⊥

leased_for_check :
    (d : Dialect) (now lease_seconds token epoch : ℕ) (r b : MonitoringTarget)
    → Saves (check_change d now lease_seconds token epoch r) b
    → (r.is_active ≡ true) × (leased now lease_seconds token epoch r ≡ b)
unfolding check_change
leased_for_check d now lease_seconds token epoch r b =
    if-cases Goal (not r.is_active) _ _
      (λ off.
        if-cases Goal (leb 5 r.consecutive_failures) _ _ (λ e. λ h. absurd h) (λ e. λ h. absurd h))
      (λ on.
        if-cases Goal (claim_lease d now r) _ _ (λ e. λ h. (active_of _ on, h))
          (λ e. λ h. absurd h))
  where
    Goal : Change → Type 0
    Goal c = Saves c b → (r.is_active ≡ true) × (leased now lease_seconds token epoch r ≡ b)

-- A row that a check has leased is free neither for the scheduler nor for another check.
held :
    (d : Dialect) (now later lease_seconds token epoch : ℕ) (r : MonitoringTarget)
    → later ≤ now + seconds lease_seconds
    → is_free later (leased now lease_seconds token epoch r) ≡ false
held d now later lease_seconds token epoch r h = ground arith

-- An on-demand check and the scheduler exclude each other: while the lease lasts that the check has
-- written into the row of its target, no scheduler claims the row, and another check of the target is
-- refused, whichever dialect, token, epoch and lease time it comes with.
pub check_now_exclusive :
    (d e : Dialect) (now later lease_seconds token epoch other_lease other_token other_epoch : ℕ)
    → (r b : MonitoringTarget)
    → check_change d now lease_seconds token epoch r ≡ save check_now_requested b
    → later ≤ now + seconds lease_seconds
    → (claimable later b ≡ false)
      × (check_change e later other_lease other_token other_epoch b ≡ refuse lease_conflict)
unfolding check_change
check_now_exclusive d e now later lease_seconds token epoch other_lease other_token other_epoch r b
      h k =
    let (on, same) =
      leased_for_check d now lease_seconds token epoch r b (subst (λ c. Saves c b) (sym h) refl) in
    let taken : is_free later b ≡ false =
      rw (← same) (held d now later lease_seconds token epoch r k) in
    let live : b.is_active ≡ true = rw (← same) on in
    let busy : claim_lease e later b ≡ false = same_claim e later b ∙ rw (live, taken) refl in
    (rw taken (ground arith), rw (busy, live) refl)
