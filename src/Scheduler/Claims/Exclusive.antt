-- ===== src/Scheduler/Claims/Exclusive.antt =====
-- What a claim hands out, what it writes, and that live leases exclude one another.
use ai_cyber_security_suite.Prelude.{
  subst, ap, sym, clash, ℕ, ◌≤◌, ◌+◌, ◌≡◌, ◌≢◌, ◌∙◌, inl, inr, Bool, true, false, not, ◌&&◌, some,
  List, [], ◌∷◌, map, refl, arith, if◌then◌else◌, Bool-cases, All, All-mono, All-and, All-map,
  All-keep, All-keep_of, keep, select, length, length-map, length-select-le, row_of, row_of_self,
  row_of-update, row_of-key, Distinct, Distinct-update, length-keep-mem-le,
}
use ai_cyber_security_suite.Scheduler.State.{
  Dialect, sqlite, postgresql, other, Settings, MonitoringTarget, Caller, ClaimedTarget, seconds,
}
use ai_cyber_security_suite.Scheduler.Claims.{
  claimable, lease, as_claimed, in_rows, claim_pg, claim_sqlite, claim_rows,
}
use ai_cyber_security_suite.Scheduler.Claims.Selection.{
  ident_of, Selected, All-Selected, in_rows-claimable, claim_each_row, claim_each_claims,
  claim_each-Distinct,
}

module _ (cfg : Settings) (c : Caller) (epoch : ℕ) (uuid : ℕ → ℕ) (locked : ℕ → Bool)
    (ts : List MonitoringTarget) where
  -- The rows that the statement of a dialect selects.
  abbrev pub chosen : Dialect → List MonitoringTarget
  chosen postgresql =
      select (λ t. claimable c.now t && not (locked t.ident)) (λ t. t.next_check_at)
        cfg.claim_batch_size ts
  chosen _ = select (claimable c.now) (λ t. t.next_check_at) cfg.claim_batch_size ts

  abbrev pub expiry : ℕ
  expiry = c.now + seconds cfg.worker_lease_seconds

  chosen-Selected : (d : Dialect) → Distinct ident_of ts → All (Selected c.now ts) (chosen d)
  chosen-Selected postgresql u = All-Selected c.now _ _ ts (λ t h. ground arith) u
  chosen-Selected sqlite u = All-Selected c.now _ _ ts (λ t h. h) u
  chosen-Selected other u = All-Selected c.now _ _ ts (λ t h. h) u

  -- The row of an id after a claim.
  claim_rows_row :
      (d : Dialect) (i : ℕ) (t : MonitoringTarget)
      → row_of ident_of i ts ≡ some t
      → row_of ident_of i (claim_rows d cfg c epoch uuid locked ts).0
        ≡ some (if in_rows (chosen d) t then lease uuid epoch expiry t else t)
  unfolding claim_rows claim_pg claim_sqlite
  claim_rows_row postgresql i t row =
      row_of-update ident_of (in_rows (chosen postgresql)) (lease uuid epoch expiry) (λ x. refl) i
        ts t row
  claim_rows_row sqlite i t row = claim_each_row uuid epoch expiry i (chosen sqlite) ts t row
  claim_rows_row other i t row = claim_each_row uuid epoch expiry i (chosen other) ts t row

  pub claim_rows-Distinct :
      (d : Dialect)
      → Distinct ident_of ts
      → Distinct ident_of (claim_rows d cfg c epoch uuid locked ts).0
  unfolding claim_rows claim_pg claim_sqlite
  claim_rows-Distinct postgresql u =
      Distinct-update ident_of (in_rows (chosen postgresql)) (lease uuid epoch expiry) (λ x. refl)
        ts u
  claim_rows-Distinct sqlite u = claim_each-Distinct uuid epoch expiry (chosen sqlite) ts u
  claim_rows-Distinct other u = claim_each-Distinct uuid epoch expiry (chosen other) ts u

  -- Where the ids of the targets are distinct, a claim leaves alone every row that its WHERE clause
  -- does not let through: an inactive target, one that is not due, and one whose lease still runs.
  pub claim_rows_leaves :
      (d : Dialect) (i : ℕ) (t : MonitoringTarget)
      → Distinct ident_of ts
      → row_of ident_of i ts ≡ some t
      → claimable c.now t ≡ false
      → row_of ident_of i (claim_rows d cfg c epoch uuid locked ts).0 ≡ some t
  claim_rows_leaves d i t u row no_claim = elim (Bool-cases (in_rows (chosen d) t)) [
    | inl e ↦
        let own =
          subst (λ k. row_of ident_of k ts ≡ some t) (sym (row_of-key ident_of i ts t row)) row in
        absurd (
          clash (claimable c.now t)
            (in_rows-claimable c.now ts (chosen d) t (chosen-Selected d u) own e) no_claim)
    | inr e ↦ claim_rows_row d i t row ∙ rw e
  ]

  -- What a claim hands out for a target.
  abbrev pub Granted : List MonitoringTarget → ClaimedTarget → Type 0
  Granted after cl =
      (t : MonitoringTarget) × (row_of ident_of cl.target_id ts ≡ some t)
      × (claimable c.now t ≡ true)
      × (cl ≡ as_claimed uuid epoch t)
      × (row_of ident_of cl.target_id after ≡ some (lease uuid epoch expiry t))

  granted :
      (d : Dialect) (t : MonitoringTarget)
      → row_of ident_of t.ident ts ≡ some t
      → claimable c.now t ≡ true
      → in_rows (chosen d) t ≡ true
      → Granted (claim_rows d cfg c epoch uuid locked ts).0 (as_claimed uuid epoch t)
  granted d t row ok e = (t, row, ok, refl, claim_rows_row d t.ident t row ∙ rw e)

  in_rows_self :
      (rows all : List MonitoringTarget)
      → ((t : MonitoringTarget) → in_rows rows t ≡ true → in_rows all t ≡ true)
      → All (λ r. in_rows all r ≡ true) rows
  in_rows_self [] all f = tt
  in_rows_self (r ∷ rs) all f =
      (f r (ground arith), in_rows_self rs all (λ t m. f t (ground arith)))

  loop-Granted :
      (d : Dialect)
      → Distinct ident_of ts
      → All
          (Granted (claim_rows d cfg c epoch uuid locked ts).0)
          (map (as_claimed uuid epoch) (chosen d))
  loop-Granted d u = All-map _ _ (chosen d) (
      All-mono _ _ (λ t h. granted d t h.0.0 h.0.1 h.1) (chosen d)
        (All-and _ _ (chosen d) (chosen-Selected d u)
          (in_rows_self (chosen d) (chosen d) (λ t m. m))))

  -- Where the ids of the targets are distinct, every target that a claim hands out was claimable,
  -- is described as its row says, and its row now holds the token and the epoch handed out and a
  -- lease of the configured length.
  pub claim_rows-Granted :
      (d : Dialect)
      → Distinct ident_of ts
      → All
          (Granted (claim_rows d cfg c epoch uuid locked ts).0)
          (claim_rows d cfg c epoch uuid locked ts).1
  unfolding claim_rows claim_pg claim_sqlite
  claim_rows-Granted postgresql u = All-map _ _ _ (
      All-mono _ _
        (λ t h.
          granted postgresql t h.0
            (in_rows-claimable c.now ts (chosen postgresql) t (chosen-Selected postgresql u) h.0
              h.1)
            h.1)
        _
        (All-and _ _ _ (All-keep_of _ _ ts (row_of_self ident_of ts u))
          (All-keep (in_rows (chosen postgresql)) ts)))
  claim_rows-Granted sqlite u =
      rw (claim_each_claims uuid epoch expiry (chosen sqlite) ts) (loop-Granted sqlite u)
  claim_rows-Granted other u =
      rw (claim_each_claims uuid epoch expiry (chosen other) ts) (loop-Granted other u)

  -- Where the ids of the targets are distinct, a claim hands out at most a batch.
  pub length-claim_rows-le :
      (d : Dialect)
      → Distinct ident_of ts
      → length (claim_rows d cfg c epoch uuid locked ts).1 ≤ cfg.claim_batch_size
  unfolding claim_rows claim_pg claim_sqlite
  length-claim_rows-le postgresql u = omega (
    arith,
    length-map (as_claimed uuid epoch) (keep (in_rows (chosen postgresql)) ts),
    length-keep-mem-le ident_of (map (λ r. r.ident) (chosen postgresql)) ts u,
    length-map (λ (r : MonitoringTarget). r.ident) (chosen postgresql),
    length-select-le (λ (t : MonitoringTarget). claimable c.now t && not (locked t.ident))
        (λ t. t.next_check_at) cfg.claim_batch_size ts,
  )
  length-claim_rows-le sqlite u = omega (
    arith,
    ap length (claim_each_claims uuid epoch expiry (chosen sqlite) ts),
    length-map (as_claimed uuid epoch) (chosen sqlite),
    length-select-le (claimable c.now) (λ t. t.next_check_at) cfg.claim_batch_size ts,
  )
  length-claim_rows-le other u = omega (
    arith,
    ap length (claim_each_claims uuid epoch expiry (chosen other) ts),
    length-map (as_claimed uuid epoch) (chosen other),
    length-select-le (claimable c.now) (λ t. t.next_check_at) cfg.claim_batch_size ts,
  )

leased_not_claimable :
    (uuid : ℕ → ℕ) (epoch expires now : ℕ) (t t' : MonitoringTarget)
    → now ≤ expires
    → some (lease uuid epoch expires t) ≡ some t'
    → claimable now t' ≡ true
    → ⊥
leased_not_claimable uuid epoch expires now t t' soon e ok = ground arith

-- Where the ids of the targets are distinct: of two claims in a row, the second at most a lease
-- after the first, no target is handed out by both, whichever pods and dialects make them.
pub claim_rows_exclusive :
    (cfg : Settings) (d d' : Dialect) (c c' : Caller) (epoch epoch' : ℕ) (uuid uuid' : ℕ → ℕ)
    (locked locked' : ℕ → Bool) (ts : List MonitoringTarget)
    → Distinct ident_of ts
    → c'.now ≤ c.now + seconds cfg.worker_lease_seconds
    → All
        (λ cl.
          All
            (λ cl'. cl.target_id ≢ cl'.target_id)
            (claim_rows d' cfg c' epoch' uuid' locked'
              (claim_rows d cfg c epoch uuid locked ts).0).1)
        (claim_rows d cfg c epoch uuid locked ts).1
claim_rows_exclusive cfg d d' c c' epoch epoch' uuid uuid' locked locked' ts u soon =
    let ts1 = (claim_rows d cfg c epoch uuid locked ts).0 in
    All-mono _ _
      (λ cl g.
        All-mono _ _ (λ cl' g'. λ same. overlap cl cl' g g' same) _
          (claim_rows-Granted cfg c' epoch' uuid' locked' ts1 d'
            (claim_rows-Distinct cfg c epoch uuid locked ts d u)))
      _ (claim_rows-Granted cfg c epoch uuid locked ts d u)
  where
    overlap :
        (cl cl' : ClaimedTarget)
        → Granted cfg c epoch uuid locked ts (claim_rows d cfg c epoch uuid locked ts).0 cl
        → Granted cfg c' epoch' uuid' locked'
            (claim_rows d cfg c epoch uuid locked ts).0
            (claim_rows d' cfg c' epoch' uuid' locked'
              (claim_rows d cfg c epoch uuid locked ts).0).0
            cl'
        → cl.target_id ≡ cl'.target_id
        → ⊥
    overlap cl cl' g g' same =
        let row =
          subst
            (λ k.
              row_of ident_of k (claim_rows d cfg c epoch uuid locked ts).0
              ≡ some (lease uuid epoch (c.now + seconds cfg.worker_lease_seconds) g.0))
            same g.4 in
        leased_not_claimable uuid epoch (c.now + seconds cfg.worker_lease_seconds) c'.now g.0 g'.0
          soon (sym row ∙ g'.1) g'.2
