-- ===== src/Lifecycle/Champions.antt =====
-- Which models a registry can come to serve.
use ai_cyber_security_suite.Prelude.{
  ℕ, ◌≡◌, ◌≢◌, refl, sym, subst, inl, inr, true, false, Option, none, some, some_inj, List, [], ◌∷◌,
  ◌++◌, if◌then◌else◌, ◌==◌, ==_iff, mem, find_passes, arith, Bool-cases,
}
use ai_cyber_security_suite.Lifecycle.{
  Registry, Files, Failure, Answer, ok, err, remove_first, add_new, promote_candidate_to_registry,
  is_valid, reversed, valid_previous, or_previous, rollback_target, is_intact, rolled_back, roll_to,
  execute_model_rollback,
}

-- No number occurs twice.
abbrev pub IsUnique : List ℕ → Type 0
IsUnique [] = Unit
IsUnique (x ∷ xs) = (mem x xs ≡ false) × IsUnique xs

mem-append :
    (n : ℕ) (xs : List ℕ) (y : ℕ) → mem n (xs ++ y ∷ []) ≡ (if mem n xs then true else y == n)
mem-append n [] y = ground arith
mem-append n (x ∷ xs) y = ground (arith, mem-append n xs y)

remove-gone : (n : ℕ) (xs : List ℕ) → IsUnique xs → mem n (remove_first n xs) ≡ false
remove-gone n [] u = refl
remove-gone n (x ∷ xs) u = elim (Bool-cases (x == n)) [
  | inl e ↦ rw e (rw (← ((==_iff x n).0 e)) u.0)
  | inr e ↦ rw e (rw e (remove-gone n xs u.1))
]

remove-other : (m n : ℕ) (xs : List ℕ) → mem m xs ≡ false → mem m (remove_first n xs) ≡ false
remove-other m n [] h = refl
remove-other m n (x ∷ xs) h = ground (arith, remove-other m n xs)

remove-IsUnique : (n : ℕ) (xs : List ℕ) → IsUnique xs → IsUnique (remove_first n xs)
remove-IsUnique n [] u = tt
remove-IsUnique n (x ∷ xs) u = elim (Bool-cases (x == n)) [
  | inl e ↦ rw e u.1
  | inr e ↦ rw e (remove-other x n xs u.0, remove-IsUnique n xs u.1)
]

snoc-IsUnique : (n : ℕ) (xs : List ℕ) → mem n xs ≡ false → IsUnique xs → IsUnique (xs ++ n ∷ [])
snoc-IsUnique n [] h u = (refl, tt)
snoc-IsUnique n (x ∷ xs) h u =
    (ground (arith, mem-append x xs n, u.0), snoc-IsUnique n xs (ground arith) u.1)

add-IsUnique : (n : ℕ) (xs : List ℕ) → IsUnique xs → IsUnique (add_new n xs)
add-IsUnique n xs u = elim (Bool-cases (mem n xs)) [
  | inl e ↦ rw e u
  | inr e ↦ rw e (snoc-IsUnique n xs e u)
]

add-other : (m n : ℕ) (xs : List ℕ) → m ≢ n → mem m xs ≡ false → mem m (add_new n xs) ≡ false
add-other m n xs ne h = elim (Bool-cases (mem n xs)) [
  | inl e ↦ rw e h
  | inr e ↦ rw e (ground (arith, mem-append m xs n))
]

-- The production model is not demoted, and no model is demoted twice.
abbrev pub IsSound : Registry → Type 0
IsSound r = (mem r.production r.demoted_models ≡ false) × IsUnique r.demoted_models

-- What a rollback goes to: neither current nor demoted, with a file that can be used.
target-valid :
    (f : Files) (r : Registry) (o : Option ℕ) {n : ℕ}
    → ((m : ℕ) → o ≡ some m → is_valid f r m ≡ true)
    → or_previous f r o ≡ some n
    → is_valid f r n ≡ true
target-valid f r (some m) g h = subst (λ z. is_valid f r z ≡ true) (some_inj.0 h) (g m refl)
target-valid f r none g h = previous r.previous_champion h
  where
    previous : (q : Option ℕ) {n : ℕ} → valid_previous f r q ≡ some n → is_valid f r n ≡ true
    previous none k = absurd (cc)
    previous (some m) k = elim (Bool-cases (is_valid f r m)) [
      | inl e ↦ subst (λ z. is_valid f r z ≡ true) (some_inj.0 (rw e at k)) e
      | inr e ↦ absurd (cc)
    ]

-- What a rollback gives: a sound file that was neither current nor demoted, and the model that it
-- replaces is demoted.
pub record Restores (f : Files) (r r' : Registry) : Type 0 where
  pub valid : is_valid f r r'.production ≡ true
  pub intact : is_intact f r'.production (r.artifacts_sha256 r'.production) ≡ true
  pub loadable : f.has_model r'.production ≡ true
  pub replaced : r' ≡ rolled_back r'.production r

err-ne-ok {ℓ} : {C : Type ℓ} {e : Failure} {r : Registry} → err e ≡ ok r → C
err-ne-ok h = absurd (cc)

ok_inj : {r r' : Registry} → ok r ≡ ok r' → r ≡ r'
ok_inj h = cc

roll-Restores :
    (f : Files) (r : Registry) (o : Option ℕ) {r' : Registry}
    → ((n : ℕ) → o ≡ some n → is_valid f r n ≡ true)
    → roll_to f r o ≡ ok r'
    → Restores f r r'
roll-Restores f r none g h = err-ne-ok h
roll-Restores f r (some n) g h = elim (Bool-cases (is_intact f n (r.artifacts_sha256 n))) [
  | inr e ↦ err-ne-ok (rw e at h)
  | inl e ↦ elim (Bool-cases (f.has_model n)) [
    | inr k ↦ err-ne-ok (rw (e, k) at h)
    | inl k ↦
        subst (Restores f r) (ok_inj (rw (e, k) at h))
          (record { valid = g n refl; intact = e; loadable = k; replaced = refl })
  ]
]

rollback-Restores :
    (f : Files) (r : Registry) {r' : Registry}
    → execute_model_rollback f r ≡ ok r'
    → Restores f r r'
unfolding execute_model_rollback
rollback-Restores f r h =
    roll-Restores f r (rollback_target f r)
      (λ n k.
        target-valid f r _ (λ m q. find_passes (is_valid f r) (reversed r.champion_history) m q) k)
      h

pub data Call : Type 0 where
  promotes : ℕ → Option ℕ → Call
  rolls_back : Files → Call

abbrev pub answer : Call → Registry → Answer
answer (promotes n sha) r = promote_candidate_to_registry n sha r
answer (rolls_back f) r = execute_model_rollback f r

-- A call that raises writes nothing.
abbrev pub registry_after : Registry → Answer → Registry
registry_after r (ok r') = r'
registry_after r (err e) = r

abbrev pub serve : List Call → Registry → Registry
serve [] r = r
serve (c ∷ cs) r = serve cs (registry_after r (answer c r))

rolled-IsSound :
    (f : Files) (r : Registry) (n : ℕ)
    → is_valid f r n ≡ true
    → IsSound r
    → IsSound (rolled_back n r)
rolled-IsSound f r n v s = (
  add-other n r.production r.demoted_models (ground arith) (ground arith),
  add-IsUnique r.production r.demoted_models s.1,
)

registry_after-IsSound :
    (f : Files) (r : Registry) (a : Answer)
    → execute_model_rollback f r ≡ a
    → IsSound r
    → IsSound (registry_after r a)
registry_after-IsSound f r (err e) h s = s
registry_after-IsSound f r (ok r') h s =
    let t = rollback-Restores f r h in
    subst IsSound (sym t.replaced) (rolled-IsSound f r r'.production t.valid s)

step-IsSound : (c : Call) (r : Registry) → IsSound r → IsSound (registry_after r (answer c r))
unfolding promote_candidate_to_registry
step-IsSound (promotes n none) r s = s
step-IsSound (promotes n (some sha)) r s =
    (remove-gone n r.demoted_models s.1, remove-IsUnique n r.demoted_models s.1)
step-IsSound (rolls_back f) r s = registry_after-IsSound f r (execute_model_rollback f r) refl s

-- Over any promotions and rollbacks, whether they succeed or not, the production model is never one
-- that is demoted, and no model is demoted twice, if it is so at first.
pub serve-IsSound : (cs : List Call) (r : Registry) → IsSound r → IsSound (serve cs r)
serve-IsSound [] r s = s
serve-IsSound (c ∷ cs) r s = serve-IsSound cs (registry_after r (answer c r)) (step-IsSound c r s)
