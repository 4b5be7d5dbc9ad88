-- ===== src/Containment/Policies/Versions.antt =====
-- The optimistic lock on a policy.
use ai_cyber_security_suite.Prelude.{
  ℕ, ◌≡◌, refl, inl, inr, true, false, some, List, [], ◌∷◌, ◌==◌, any, find, update, Bool-cases,
  arith, clash,
}
use ai_cyber_security_suite.Containment.Model.{Policy, Tables}
use ai_cyber_security_suite.Containment.Policies.{
  PolicyUpdate, policy_of, get_or_create_policy, is_current, rewritten, update_policy,
}

-- An updated row is not of the version that was submitted.
stale :
    (n user : ℕ) (u : PolicyUpdate) (p : Policy)
    → is_current n u p ≡ true
    → is_current n u (rewritten user u p) ≡ false
stale n user u p h = ground arith

none_current :
    (n user : ℕ) (u : PolicyUpdate) (ps : List Policy)
    → any (is_current n u) (update (is_current n u) (rewritten user u) ps) ≡ false
none_current n user u [] = refl
none_current n user u (p ∷ ps) = elim (Bool-cases (is_current n u p)) [
  | inl e ↦ rw (e, stale n user u p e) (none_current n user u ps)
  | inr e ↦ rw (e, e) (none_current n user u ps)
]

still_there :
    (n user : ℕ) (u : PolicyUpdate) (ps : List Policy)
    → any (is_current n u) ps ≡ true
    → (p : Policy) × (find (λ x. x.tenant_id == n) (update (is_current n u) (rewritten user u) ps)
        ≡ some p)
still_there n user u [] h = cc
still_there n user u (p ∷ ps) h = elim (Bool-cases (is_current n u p)) [
  | inl e ↦
      let mine : (p.tenant_id == n) ≡ true = ground arith in (rewritten user u p, rw (e, mine) refl)
  | inr e ↦ elim (Bool-cases (p.tenant_id == n)) [
    | inl mine ↦ (p, rw (e, mine) refl)
    | inr other ↦ let (x, found) = still_there n user u ps (rw e at h) in (x, rw (e, other) found)
  ]
]

-- An update that no policy row is ready for, where the tenant has one.
refused :
    (n : ℕ) (v : PolicyUpdate) (user : ℕ) (t : Tables) (p : Policy)
    → policy_of n t ≡ some p
    → any (is_current n v) t.policies ≡ false
    → update_policy n v user t ≡ (t, false)
unfolding update_policy get_or_create_policy
refused n v user t p found none_is = rw (found, none_is) refl

-- Of two updates of one version of a tenant's policy, by whichever users, at most the first succeeds:
-- after one that does, the other is refused and writes nothing.
pub update_policy_once :
    (n : ℕ) (u v : PolicyUpdate) (user other : ℕ) (t : Tables)
    → v.policy_version ≡ u.policy_version
    → (update_policy n u user t).1 ≡ true
    → let first = (update_policy n u user t).0 in update_policy n v other first ≡ (first, false)
unfolding update_policy
update_policy_once n u v user other t e h =
    let t1 = (get_or_create_policy n t).0 in
    let alike : is_current n v ≡ is_current n u = rw e refl in
    elim (Bool-cases (any (is_current n u) t1.policies)) [
      | inr k ↦ absurd (clash false (rw k at h) refl)
      | inl k ↦
          let (p, found) = still_there n user u t1.policies k in
          rw k (refused n v other _ p found (rw alike (none_current n user u t1.policies)))
    ]
