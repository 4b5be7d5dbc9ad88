-- ===== src/Lifecycle/Examples.antt =====
-- A model 1 that is replaced by model 2, and the history of a model that came back.
use ai_cyber_security_suite.Prelude.{
  ℕ, ◌≡◌, refl, true, none, false, some, List, [], ◌∷◌, mem, arith,
}
use ai_cyber_security_suite.Lifecycle.{
  Registry, Files, ok, with_candidate, rolled_back, execute_model_rollback, Services,
}
use ai_cyber_security_suite.Lifecycle.Champions.{
  promotes, rolls_back, serve, IsSound, serve-IsSound,
}
use ai_cyber_security_suite.Lifecycle.Recovery.{promotion_roundtrip, promotion_rollback_misses}

abbrev files : Files
files = record { is_usable = λ n. true; sha256 = λ n. n; has_model = λ n. true }

abbrev registry : List ℕ → Registry
registry history = record {
  production = 1;
  staging = 1;
  experimental = 1;
  previous_champion = none;
  champion_history = history;
  demoted_models = [];
  artifacts_sha256 = λ n. none;
}

serve-IsSound_example :
    IsSound
      (serve (promotes 2 (some 2) ∷ rolls_back files ∷ promotes 2 (some 2) ∷ []) (registry []))
serve-IsSound_example =
    serve-IsSound (promotes 2 (some 2) ∷ rolls_back files ∷ promotes 2 (some 2) ∷ []) (registry [])
      (refl, tt)

promotion_roundtrip_example :
    (back : Registry) × (execute_model_rollback files (with_candidate 2 2 (registry [])) ≡ ok back)
    × (back.production ≡ 1)
    × (back.staging ≡ 1)
    × (mem 2 back.demoted_models ≡ true)
    × (mem 1 back.demoted_models ≡ false)
    × (back.champion_history ≡ 1 ∷ [])
    × (back.previous_champion ≡ none)
    × (back.artifacts_sha256 2 ≡ some 2)
promotion_roundtrip_example =
    promotion_roundtrip files (registry []) 2 2 (λ e. omega arith) refl refl refl refl refl

-- Model 1 was replaced by model 3 and promoted again; the rollback goes to model 3.
promotion_rollback_misses_example :
    execute_model_rollback files (with_candidate 2 2 (registry (1 ∷ 3 ∷ [])))
    ≡ ok (rolled_back 3 (with_candidate 2 2 (registry (1 ∷ 3 ∷ []))))
promotion_rollback_misses_example =
    promotion_rollback_misses files (registry (1 ∷ 3 ∷ [])) 2 2 (1 ∷ []) 3 refl refl refl refl refl

abbrev services : Services
services = record { predicting = 1; explaining = 1 }
