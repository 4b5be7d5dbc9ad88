-- ===== src/Lifecycle.antt =====
-- The registry of models, backend/services/model_lifecycle.py: the promotion of a candidate, the rollback
-- to a former champion and the coordinated reload. A file name is a number; what the files hold is an
-- argument, `Files`. The registry is read with all its keys; metrics and time stamps are left out.
pub mod Champions
pub mod Recovery
mod Examples
use ai_cyber_security_suite.Prelude.{
  ℕ, zero, suc, Bool, true, false, not, ◌||◌, ◌&&◌, Option, none, some, List, [], ◌∷◌, ◌++◌,
  if◌then◌else◌, ◌==◌, is_none, mem, find, length,
}

pub record Registry : Type 0 where
  pub production : ℕ
  pub staging : ℕ
  pub experimental : ℕ
  pub previous_champion : Option ℕ
  pub champion_history : List ℕ
  pub demoted_models : List ℕ
  pub artifacts_sha256 : ℕ → Option ℕ

-- `is_usable` is whether a name is a valid path of a file that exists, `sha256` its digest, `has_model`
-- whether it unpickles to an object with the model's interface.
pub record Files : Type 0 where
  pub is_usable : ℕ → Bool
  pub sha256 : ℕ → ℕ
  pub has_model : ℕ → Bool

pub data Failure : Type 0 where
  bad_checksum no_champion integrity no_interface : Failure

pub data Answer : Type 0 where
  ok : Registry → Answer
  err : Failure → Answer

-- `list.remove`: the first occurrence.
abbrev pub remove_first : ℕ → List ℕ → List ℕ
remove_first n [] = []
remove_first n (x ∷ xs) = if x == n then xs else x ∷ remove_first n xs

-- `if x not in xs: xs.append(x)`
abbrev pub add_new : ℕ → List ℕ → List ℕ
add_new n xs = if mem n xs then xs else xs ++ n ∷ []

abbrev pub record_sha : ℕ → ℕ → (ℕ → Option ℕ) → ℕ → Option ℕ
record_sha n sha known m = if m == n then some sha else known m

abbrev pub with_candidate : ℕ → ℕ → Registry → Registry
with_candidate candidate sha r = record {
  production = candidate;
  staging = candidate;
  experimental = candidate;
  previous_champion = some r.production;
  champion_history = add_new r.production r.champion_history;
  demoted_models = remove_first candidate r.demoted_models;
  artifacts_sha256 = record_sha candidate sha r.artifacts_sha256;
}

-- A checksum that is no text of 64 characters is none.
unfoldable pub promote_candidate_to_registry : ℕ → Option ℕ → Registry → Answer
promote_candidate_to_registry candidate none r = err bad_checksum
promote_candidate_to_registry candidate (some sha) r = ok (with_candidate candidate sha r)

-- A champion that is neither current nor demoted, and whose file can be used.
abbrev pub is_valid : Files → Registry → ℕ → Bool
is_valid f r n = not (n == r.production) && (not (mem n r.demoted_models) && f.is_usable n)

abbrev pub reversed : List ℕ → List ℕ
reversed [] = []
reversed (x ∷ xs) = reversed xs ++ x ∷ []

abbrev pub valid_previous : Files → Registry → Option ℕ → Option ℕ
valid_previous f r none = none
valid_previous f r (some n) = if is_valid f r n then some n else none

abbrev pub or_previous : Files → Registry → Option ℕ → Option ℕ
or_previous f r (some n) = some n
or_previous f r none = valid_previous f r r.previous_champion

abbrev pub rollback_target : Files → Registry → Option ℕ
rollback_target f r = or_previous f r (find (is_valid f r) (reversed r.champion_history))

-- No recorded digest, or that of the file.
abbrev pub is_intact : Files → ℕ → Option ℕ → Bool
is_intact f n none = true
is_intact f n (some sha) = f.sha256 n == sha

abbrev pub rolled_back : ℕ → Registry → Registry
rolled_back n r = record r {
  production = n;
  staging = n;
  demoted_models = add_new r.production r.demoted_models;
  previous_champion = none;
}

abbrev pub roll_to : Files → Registry → Option ℕ → Answer
roll_to f r none = err no_champion
roll_to f r (some n) =
    if not (is_intact f n (r.artifacts_sha256 n))
    then err integrity
    else if not (f.has_model n)
    then err no_interface
    else ok (rolled_back n r)

unfoldable pub execute_model_rollback : Files → Registry → Answer
execute_model_rollback f r = roll_to f r (rollback_target f r)

-- The model that each service has loaded.
pub record Services : Type 0 where
  pub predicting : ℕ
  pub explaining : ℕ

-- The registry and the services after a reload, and whether it was one.
pub record Reloaded : Type 0 where
  pub registry : Registry
  pub services : Services
  pub succeeded : Bool

abbrev pub restored : Option Registry → Registry → Registry
restored none r = r
restored (some backup) r = backup

-- The recovery of the prediction service, if there is a backup; `again` is whether it can be reloaded.
abbrev pub recover : Bool → Option Registry → Services → Services
recover again none s = s
recover again (some backup) s = if again then record s { predicting = backup.production } else s

-- `loads` and `explains` are whether the services' reloads succeed.
unfoldable pub coordinate_model_reload :
    Bool → Bool → Bool → Option Registry → Registry → Services → Reloaded
coordinate_model_reload loads explains again backup r s =
    if not loads
    then record { registry = restored backup r; services = s; succeeded = false }
    else if not explains
    then record {
      registry = restored backup r;
      services = recover again backup (record s { predicting = r.production });
      succeeded = false;
    }
    else record {
      registry = r;
      services = record { predicting = r.production; explaining = r.production };
      succeeded = true;
    }
