-- ===== src/Dispatcher/Outbox/Claims.antt =====
-- What a claim of outbox jobs takes, and that live locks exclude one another.
use ai_cyber_security_suite.Prelude.{
  ℕ, ◌+◌, ◌≤◌, ◌≡◌, ◌≢◌, ◌∙◌, ap, sym, subst, inl, inr, Bool, true, false, not, ◌&&◌, some, List,
  [], ◌∷◌, refl, arith, clash, if◌then◌else◌, Bool-cases, All, All-mono, All-and, All-map, All-mem,
  All-select, All-select_of, select, length, length-map, length-select-le, row_of, row_of_self,
  row_of-update, row_of-key, Distinct, Distinct-update,
}
use ai_cyber_security_suite.Dispatcher.Outbox.{
  Job, eligible, take_over, in_jobs, claim_jobs, seconds, lease_expiry_seconds,
}

abbrev pub ident_of : Job → ℕ
ident_of j = j.ident

abbrev pub Selected : ℕ → List Job → Job → Type 0
Selected now jobs j = (row_of ident_of j.ident jobs ≡ some j) × (eligible now j ≡ true)

leased_not_eligible :
    (now now' pod : ℕ) (j k : Job)
    → now' ≤ now + seconds lease_expiry_seconds
    → some (take_over now pod j) ≡ some k
    → eligible now' k ≡ true
    → ⊥
leased_not_eligible now now' pod j k soon e ok = ground arith

module _ (now pod batch_size : ℕ) (locked : ℕ → Bool) (jobs : List Job) where
  abbrev pub chosen : List Job
  chosen =
      select (λ j. eligible now j && not (locked j.ident)) (λ j. j.next_attempt_at) batch_size jobs

  pub chosen-Selected : Distinct ident_of jobs → All (Selected now jobs) chosen
  chosen-Selected u =
      All-and _ _ _
        (All-select_of _ (λ (j : Job). eligible now j && not (locked j.ident))
          (λ j. j.next_attempt_at) batch_size jobs (row_of_self ident_of jobs u))
        (All-mono _ _ (λ (j : Job) h. ground arith) _
          (All-select (λ (j : Job). eligible now j && not (locked j.ident)) (λ j. j.next_attempt_at)
            batch_size jobs))

  pub in_jobs-eligible :
      (rows : List Job) (j : Job)
      → All (Selected now jobs) rows
      → row_of ident_of j.ident jobs ≡ some j
      → in_jobs rows j ≡ true
      → eligible now j ≡ true
  in_jobs-eligible rows j sel row m =
      let found =
        All-mem (λ i. (k : Job) × (row_of ident_of i jobs ≡ some k) × (eligible now k ≡ true))
          j.ident _ (All-map _ _ rows (All-mono _ _ (λ k s. (k, s.0, s.1)) rows sel)) m in
      ground (arith, found.1, found.2)

  claim_jobs_row :
      (i : ℕ) (j : Job)
      → row_of ident_of i jobs ≡ some j
      → row_of ident_of i (claim_jobs now pod batch_size locked jobs).0
        ≡ some (if in_jobs chosen j then take_over now pod j else j)
  unfolding claim_jobs
  claim_jobs_row i j row =
      row_of-update ident_of (in_jobs chosen) (take_over now pod) (λ k. refl) i jobs j row

  pub claim_jobs-Distinct :
      Distinct ident_of jobs → Distinct ident_of (claim_jobs now pod batch_size locked jobs).0
  unfolding claim_jobs
  claim_jobs-Distinct u =
      Distinct-update ident_of (in_jobs chosen) (take_over now pod) (λ k. refl) jobs u

  -- Where the ids of the jobs are distinct, a claim leaves alone every job that is not eligible:
  -- one that is delivered or failed, one whose lock is younger than the lease, and one whose next
  -- attempt is not due.
  pub claim_jobs_leaves :
      (i : ℕ) (j : Job)
      → Distinct ident_of jobs
      → row_of ident_of i jobs ≡ some j
      → eligible now j ≡ false
      → row_of ident_of i (claim_jobs now pod batch_size locked jobs).0 ≡ some j
  claim_jobs_leaves i j u row no_claim = elim (Bool-cases (in_jobs chosen j)) [
    | inl e ↦
        let own =
          subst (λ k. row_of ident_of k jobs ≡ some j) (sym (row_of-key ident_of i jobs j row))
            row in
        absurd
          (clash (eligible now j) (in_jobs-eligible chosen j (chosen-Selected u) own e) no_claim)
    | inr e ↦ claim_jobs_row i j row ∙ rw e
  ]

  -- What a claim hands out for a job.
  abbrev pub Taken : List Job → Job → Type 0
  Taken after k =
      (j : Job) × (row_of ident_of k.ident jobs ≡ some j)
      × (eligible now j ≡ true)
      × (k ≡ take_over now pod j)
      × (row_of ident_of k.ident after ≡ some k)

  in_jobs_self :
      (rows all : List Job)
      → ((j : Job) → in_jobs rows j ≡ true → in_jobs all j ≡ true)
      → All (λ r. in_jobs all r ≡ true) rows
  in_jobs_self [] all f = tt
  in_jobs_self (r ∷ rs) all f =
      (f r (ground arith), in_jobs_self rs all (λ j m. f j (ground arith)))

  -- Where the ids of the jobs are distinct, every claimed job was eligible, its row is now in
  -- process under this pod's lock, and at most a batch is claimed.
  pub claim_jobs-Taken :
      Distinct ident_of jobs
      → All
          (Taken (claim_jobs now pod batch_size locked jobs).0)
          (claim_jobs now pod batch_size locked jobs).1
        × (length (claim_jobs now pod batch_size locked jobs).1 ≤ batch_size)
  unfolding claim_jobs
  claim_jobs-Taken u = (
    All-map _ _ chosen (
        All-mono _ _ (λ j h. (j, h.0.0, h.0.1, refl, claim_jobs_row j.ident j h.0.0 ∙ rw h.1))
          chosen (All-and _ _ chosen (chosen-Selected u) (in_jobs_self chosen chosen (λ j m. m)))),
    omega (
      arith,
      length-map (take_over now pod) chosen,
      length-select-le (λ (j : Job). eligible now j && not (locked j.ident))
          (λ j. j.next_attempt_at) batch_size jobs,
    ),
  )

-- Where the ids of the jobs are distinct: of two claims in a row, the second at most a lock lease
-- after the first, no job is taken by both, whichever pods make them.
pub claim_jobs_exclusive :
    (now now' pod pod' n n' : ℕ) (locked locked' : ℕ → Bool) (jobs : List Job)
    → Distinct ident_of jobs
    → now' ≤ now + seconds lease_expiry_seconds
    → All
        (λ j.
          All
            (λ k. j.ident ≢ k.ident)
            (claim_jobs now' pod' n' locked' (claim_jobs now pod n locked jobs).0).1)
        (claim_jobs now pod n locked jobs).1
claim_jobs_exclusive now now' pod pod' n n' locked locked' jobs u soon =
    let after = (claim_jobs now pod n locked jobs).0 in
    All-mono _ _
      (λ j g.
        All-mono _ _
          (λ k h. λ same.
            leased_not_eligible now now' pod g.0 h.0 soon
              (ap some (sym g.3)
                ∙ sym g.4
                ∙ subst (λ i. row_of ident_of i after ≡ some h.0) (sym same) h.1)
              h.2)
          _
          (claim_jobs-Taken now' pod' n' locked' after
            (claim_jobs-Distinct now pod n locked jobs u)).0)
      _ (claim_jobs-Taken now pod n locked jobs u).0
