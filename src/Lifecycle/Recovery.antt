-- ===== src/Lifecycle/Recovery.antt =====
-- Which champion a rollback goes back to, and the reload of the services.
use ai_cyber_security_suite.Prelude.{
  ℕ, ◌≡◌, ◌≢◌, ◌∙◌, ◌⊎◌, refl, ap, inl, inr, Bool, true, false, ◌&&◌, none, some, List, [], ◌∷◌,
  ◌++◌, if◌then◌else◌, ◌==◌, ==_iff, mem, find, arith, Bool-cases,
}
use ai_cyber_security_suite.Lifecycle.{
  Registry, Files, ok, remove_first, add_new, record_sha, with_candidate, is_valid, reversed,
  or_previous, is_intact, rolled_back, roll_to, execute_model_rollback, Services,
  coordinate_model_reload,
}

reversed-snoc : (xs : List ℕ) (y : ℕ) → reversed (xs ++ y ∷ []) ≡ y ∷ reversed xs
reversed-snoc [] y = refl
reversed-snoc (x ∷ xs) y = rw (reversed-snoc xs y) refl

-- A rollback goes to the last name of the history, if that is valid and its file sound.
last-restored :
    (f : Files) (r : Registry) (hs : List ℕ) (n : ℕ)
    → r.champion_history ≡ hs ++ n ∷ []
    → is_valid f r n ≡ true
    → is_intact f n (r.artifacts_sha256 n) ≡ true
    → f.has_model n ≡ true
    → execute_model_rollback f r ≡ ok (rolled_back n r)
unfolding execute_model_rollback
last-restored f r hs n last v whole good =
    let first : reversed r.champion_history ≡ n ∷ reversed hs =
      ap reversed last ∙ reversed-snoc hs n in
    let found : find (is_valid f r) (reversed r.champion_history) ≡ some n =
      ap (find (is_valid f r)) first ∙ head_found (is_valid f r) n (reversed hs) v in
    ap (λ o. roll_to f r (or_previous f r o)) found ∙ rolled whole good
  where
    head_found :
        (test : ℕ → Bool) (m : ℕ) (ms : List ℕ) → test m ≡ true → find test (m ∷ ms) ≡ some m
    head_found test m ms h = rw h refl

    rolled :
        is_intact f n (r.artifacts_sha256 n) ≡ true
        → f.has_model n ≡ true
        → roll_to f r (some n) ≡ ok (rolled_back n r)
    rolled a b = rw (a, b) refl

remove-absent : (m n : ℕ) (xs : List ℕ) → mem m xs ≡ false → mem m (remove_first n xs) ≡ false
remove-absent m n [] h = refl
remove-absent m n (x ∷ xs) h = ground (arith, remove-absent m n xs)

add_new-mem : (n : ℕ) (xs : List ℕ) → mem n (add_new n xs) ≡ true
add_new-mem n xs = elim (Bool-cases (mem n xs)) [ inl e ↦ rw e e | inr e ↦ rw e (last_in xs) ]
  where
    last_in : (ys : List ℕ) → mem n (ys ++ n ∷ []) ≡ true
    last_in [] = rw ((==_iff n n).1 refl) refl
    last_in (y ∷ ys) = ground (arith, last_in ys)

add_new-other : (m n : ℕ) (xs : List ℕ) → m ≢ n → mem m xs ≡ false → mem m (add_new n xs) ≡ false
add_new-other m n xs other h = elim (Bool-cases (mem n xs)) [
  | inl e ↦ rw e h
  | inr e ↦ rw e (not_last xs h)
]
  where
    not_last : (ys : List ℕ) → mem m ys ≡ false → mem m (ys ++ n ∷ []) ≡ false
    not_last [] k = ground (arith, other)
    not_last (y ∷ ys) k = ground (arith, not_last ys)

module _ (f : Files) (r : Registry) (candidate sha : ℕ) (other : r.production ≢ candidate)
    (usable : f.is_usable r.production ≡ true) (good : f.has_model r.production ≡ true)
    (whole : is_intact f r.production (r.artifacts_sha256 r.production) ≡ true)
    (kept : mem r.production r.demoted_models ≡ false) where
  restored :
      mem r.production r.champion_history ≡ false
      → execute_model_rollback f (with_candidate candidate sha r)
        ≡ ok (rolled_back r.production (with_candidate candidate sha r))
  restored fresh =
      last-restored f (with_candidate candidate sha r) r.champion_history r.production
        (rw fresh refl) (valid_after (remove-absent r.production candidate r.demoted_models kept))
        (intact_after (Bool-cases (r.production == candidate))) good
    where
      valid_after :
          mem r.production (remove_first candidate r.demoted_models) ≡ false
          → is_valid f (with_candidate candidate sha r) r.production ≡ true
      valid_after h = ground (arith, h)

      intact_after :
          ((r.production == candidate) ≡ true) ⊎ ((r.production == candidate) ≡ false)
          → is_intact f r.production (record_sha candidate sha r.artifacts_sha256 r.production)
            ≡ true
      intact_after (inl e) = absurd (other ((==_iff r.production candidate).0 e))
      intact_after (inr e) = rw e whole

  -- A promotion and a rollback succeed, if the champion differs from the candidate, is not demoted and
  -- new to the history, and its file usable and sound. Then the champion is in production and staging
  -- again and still not demoted, the candidate is demoted, the champion is the last name of the history,
  -- no previous champion is left, and the candidate's checksum is known.
  pub promotion_roundtrip :
      mem r.production r.champion_history ≡ false
      → (back : Registry) × (execute_model_rollback f (with_candidate candidate sha r) ≡ ok back)
        × (back.production ≡ r.production)
        × (back.staging ≡ r.production)
        × (mem candidate back.demoted_models ≡ true)
        × (mem r.production back.demoted_models ≡ false)
        × (back.champion_history ≡ r.champion_history ++ r.production ∷ [])
        × (back.previous_champion ≡ none)
        × (back.artifacts_sha256 candidate ≡ some sha)
  promotion_roundtrip fresh = (
    rolled_back r.production (with_candidate candidate sha r),
    restored fresh,
    refl,
    refl,
    add_new-mem candidate (remove_first candidate r.demoted_models),
    add_new-other r.production candidate (remove_first candidate r.demoted_models) other
        (remove-absent r.production candidate r.demoted_models kept),
    rw fresh refl,
    refl,
    rw ((==_iff candidate candidate).1 refl) refl,
  )

-- A champion that is in the history already is not entered again: the rollback of a promotion over it
-- goes to the last name of the history, if that is valid with a sound file, whichever it is.
pub promotion_rollback_misses :
    (f : Files) (r : Registry) (candidate sha : ℕ) (hs : List ℕ) (old : ℕ)
    → r.champion_history ≡ hs ++ old ∷ []
    → mem r.production (hs ++ old ∷ []) ≡ true
    → is_valid f (with_candidate candidate sha r) old ≡ true
    → is_intact f old (record_sha candidate sha r.artifacts_sha256 old) ≡ true
    → f.has_model old ≡ true
    → execute_model_rollback f (with_candidate candidate sha r)
      ≡ ok (rolled_back old (with_candidate candidate sha r))
promotion_rollback_misses f r candidate sha hs old last seen v whole good =
    last-restored f (with_candidate candidate sha r) hs old (kept ∙ last) v whole good
  where
    known : mem r.production r.champion_history ≡ true
    known = ap (mem r.production) last ∙ seen

    kept : add_new r.production r.champion_history ≡ r.champion_history
    kept = rw known refl

-- Both services have the production model of a registry loaded.
abbrev pub InSync : Registry → Services → Type 0
InSync r s = (s.predicting ≡ r.production) × (s.explaining ≡ r.production)

-- A reload with a backup, of services that run the backup's model, leaves them in step with the registry
-- that it leaves: the new one if it succeeds, the backup if it fails, as long as the prediction service
-- can be reloaded in the recovery.
pub coordinate_model_reload-InSync :
    (loads explains : Bool) (backup r : Registry) (s : Services)
    → InSync backup s
    → InSync
        (coordinate_model_reload loads explains true (some backup) r s).registry
        (coordinate_model_reload loads explains true (some backup) r s).services
      × ((coordinate_model_reload loads explains true (some backup) r s).registry
          ≡ (if loads && explains then r else backup))
unfolding coordinate_model_reload
coordinate_model_reload-InSync true true backup r s sync = ((refl, refl), refl)
coordinate_model_reload-InSync true false backup r s sync = ((refl, sync.1), refl)
coordinate_model_reload-InSync false true backup r s sync = (sync, refl)
coordinate_model_reload-InSync false false backup r s sync = (sync, refl)
