-- ===== src/Correlation.antt =====
-- The correlation of an event with recent alerts, backend/services/correlation_engine.py. A score is a
-- number of ten-thousandths, to which the code rounds. The normal form of an indicator is that of
-- normalize_canonical_domain and an argument, as is whether a rule is one of threat intelligence.
pub mod Matches
mod Examples
use ai_cyber_security_suite.Prelude.{
  ℕ, ◌+◌, ◌*◌, ◌^◌, max, Bool, true, false, not, ◌||◌, ◌&&◌, Option, none, some, List, [], ◌∷◌, map,
  if◌then◌else◌, leb, ◌==◌, sql_eq, take, keep, length,
}
use ai_cyber_security_suite.Alerts.Model.{Alert}
use ai_cyber_security_suite.Alerts.Ingestion.{same_user}

abbrev pub weight_domain : ℕ
weight_domain = 4000

abbrev pub weight_path : ℕ
weight_path = 2500

abbrev pub weight_intel : ℕ
weight_intel = 2500

abbrev pub weight_dedicated_ip : ℕ
weight_dedicated_ip = 1000

abbrev pub threshold : ℕ
threshold = 6500

abbrev pub window : ℕ
window = 24 * 3600 * 10 ^ 6

-- The normal form of an indicator; a domain that is absent or empty is none.
pub record Norm : Type 0 where
  pub registered_domain : Option ℕ
  pub path : ℕ
  pub is_ip : Bool
  pub is_shared_infra : Bool

-- `slash` is the path "/".
pub record Indicators : Type 0 where
  pub normal : ℕ → Norm
  pub slash : ℕ
  pub is_intel_rule : ℕ → Bool

abbrev pub same_domain : Option ℕ → Option ℕ → Bool
same_domain none none = true
same_domain (some a) (some b) = a == b
same_domain _ _ = false

abbrev pub is_given : Option ℕ → Bool
is_given none = false
is_given (some a) = true

abbrev pub matches_domain : Norm → Norm → Bool
matches_domain e c =
    not e.is_shared_infra
    && (not c.is_shared_infra
        && (is_given e.registered_domain
            && (is_given c.registered_domain
                && same_domain e.registered_domain c.registered_domain)))

abbrev pub matches_path : ℕ → Norm → Norm → Bool
matches_path slash e c = not (e.path == slash) && (not (c.path == slash) && e.path == c.path)

abbrev pub matches_ip : Norm → Norm → Bool
matches_ip e c = e.is_ip && (c.is_ip && same_domain e.registered_domain c.registered_domain)

abbrev pub points : Bool → ℕ → ℕ
points true n = n
points false n = 0

unfoldable pub compute_correlation_score : ℕ → Norm → Norm → Bool → Bool → ℕ
compute_correlation_score slash e c event_intel candidate_intel =
    points (matches_domain e c) weight_domain
    + points (matches_path slash e c) weight_path
    + points (event_intel && candidate_intel) weight_intel
    + points (matches_ip e c) weight_dedicated_ip

-- An event as it is correlated; `has_intel` is the test of its type and payload.
pub record Event : Type 0 where
  pub indicator_value : ℕ
  pub user_id : Option ℕ
  pub has_intel : Bool

pub record Result : Type 0 where
  pub score : ℕ
  pub is_correlated : Bool
  pub matching : List Alert
  pub evaluated : ℕ

-- `ORDER BY last_seen_at DESC`
abbrev pub insert_newest : Alert → List Alert → List Alert
insert_newest a [] = a ∷ []
insert_newest a (b ∷ bs) =
    if leb b.last_seen_at a.last_seen_at then a ∷ b ∷ bs else b ∷ insert_newest a bs

abbrev pub newest_first : List Alert → List Alert
newest_first [] = []
newest_first (a ∷ rows) = insert_newest a (newest_first rows)

abbrev pub is_recent : ℕ → Event → Alert → Bool
is_recent now e a = leb now (a.first_seen_at + window) && same_user e.user_id a

abbrev pub recent_alerts : ℕ → Event → List Alert → List Alert
recent_alerts now e rows = take 100 (newest_first (keep (is_recent now e) rows))

abbrev pub score_of : Indicators → Event → Alert → ℕ
score_of i e a =
    compute_correlation_score i.slash (i.normal e.indicator_value) (i.normal a.indicator_value)
      e.has_intel (i.is_intel_rule a.rule_name)

-- The loop over the alerts.
abbrev pub best_score : Indicators → Event → ℕ → List Alert → ℕ
best_score i e best [] = best
best_score i e best (a ∷ rows) =
    best_score i e (if leb (score_of i e a) best then best else score_of i e a) rows

abbrev pub matching_of : Indicators → Event → List Alert → List Alert
matching_of i e rows = keep (λ a. leb threshold (score_of i e a)) rows

-- `fails` is whether the query or a normal form raises.
unfoldable pub correlate_event : Indicators → Bool → ℕ → Event → List Alert → Result
correlate_event i true now e rows = record {
  score = 0;
  is_correlated = false;
  matching = [];
  evaluated = 0;
}
correlate_event i false now e rows =
    let recent = recent_alerts now e rows in
    let best = best_score i e 0 recent in
    record {
      score = best;
      is_correlated = leb threshold best;
      matching = matching_of i e recent;
      evaluated = length recent;
    }
