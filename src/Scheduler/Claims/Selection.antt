-- ===== src/Scheduler/Claims/Selection.antt =====
-- The rows that a claim selects, and what the UPDATEs do to the row of an id.
use ai_cyber_security_suite.Prelude.{
  ℕ, ◌≡◌, ◌∙◌, inl, inr, Bool, true, some, List, [], ◌∷◌, map, refl, arith, if◌then◌else◌, ◌==◌,
  Bool-cases, All, All-mono, All-and, All-select, All-select_of, All-map, All-mem, select, update,
  row_of, row_of_self, row_of-update, Distinct, Distinct-update,
}
use ai_cyber_security_suite.Scheduler.State.{MonitoringTarget}
use ai_cyber_security_suite.Scheduler.Claims.{claimable, lease, as_claimed, in_rows, claim_each}

abbrev pub ident_of : MonitoringTarget → ℕ
ident_of t = t.ident

-- A row of the table that the claim's WHERE clause lets through.
abbrev pub Selected : ℕ → List MonitoringTarget → MonitoringTarget → Type 0
Selected now ts r = (row_of ident_of r.ident ts ≡ some r) × (claimable now r ≡ true)

pub All-Selected :
    (now n : ℕ) (test : MonitoringTarget → Bool) (ts : List MonitoringTarget)
    → ((t : MonitoringTarget) → test t ≡ true → claimable now t ≡ true)
    → Distinct ident_of ts
    → All (Selected now ts) (select test (λ t. t.next_check_at) n ts)
All-Selected now n test ts f d =
    All-and _ _ _ (All-select_of _ test (λ t. t.next_check_at) n ts (row_of_self ident_of ts d))
      (All-mono _ _ f _ (All-select test (λ t. t.next_check_at) n ts))

-- A row whose id is among the selected ids is claimable itself.
pub in_rows-claimable :
    (now : ℕ) (ts rows : List MonitoringTarget) (t : MonitoringTarget)
    → All (Selected now ts) rows
    → row_of ident_of t.ident ts ≡ some t
    → in_rows rows t ≡ true
    → claimable now t ≡ true
in_rows-claimable now ts rows t sel row m =
    let found =
      All-mem
        (λ i. (r : MonitoringTarget) × (row_of ident_of i ts ≡ some r) × (claimable now r ≡ true))
        t.ident _ (All-map _ _ rows (All-mono _ _ (λ r s. (r, s.0, s.1)) rows sel)) m in
    ground (arith, found.1, found.2)

module _ (uuid : ℕ → ℕ) (epoch expires : ℕ) where
  -- After the loop a row has the lease if its id was selected, and is as before if not.
  pub claim_each_row :
      (i : ℕ) (rows ts : List MonitoringTarget) (t : MonitoringTarget)
      → row_of ident_of i ts ≡ some t
      → row_of ident_of i (claim_each uuid epoch expires rows ts).0
        ≡ some (if in_rows rows t then lease uuid epoch expires t else t)
  unfolding claim_each
  claim_each_row i [] ts t row = row
  claim_each_row i (r ∷ rs) ts t row =
      let ts1 =
        update (λ (x : MonitoringTarget). x.ident == r.ident) (lease uuid epoch expires) ts in
      let row1 =
        row_of-update ident_of (λ x. x.ident == r.ident) (lease uuid epoch expires) (λ x. refl) i ts
          t row in
      elim (Bool-cases (t.ident == r.ident)) [
        | inl e ↦ claim_each_row i rs ts1 (lease uuid epoch expires t) (rw e at row1) ∙ ground arith
        | inr e ↦ claim_each_row i rs ts1 t (rw e at row1) ∙ ground arith
      ]

  pub claim_each_claims :
      (rows ts : List MonitoringTarget)
      → (claim_each uuid epoch expires rows ts).1 ≡ map (as_claimed uuid epoch) rows
  unfolding claim_each
  claim_each_claims [] ts = refl
  claim_each_claims (r ∷ rs) ts =
      rw (claim_each_claims rs (update (λ x. x.ident == r.ident) (lease uuid epoch expires) ts))

  pub claim_each-Distinct :
      (rows ts : List MonitoringTarget)
      → Distinct ident_of ts
      → Distinct ident_of (claim_each uuid epoch expires rows ts).0
  unfolding claim_each
  claim_each-Distinct [] ts d = d
  claim_each-Distinct (r ∷ rs) ts d = claim_each-Distinct rs _ (
      Distinct-update ident_of (λ x. x.ident == r.ident) (lease uuid epoch expires) (λ x. refl) ts
        d)
