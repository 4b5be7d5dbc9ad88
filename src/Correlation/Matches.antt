-- ===== src/Correlation/Matches.antt =====
-- What a score means, and which alerts an event is correlated with.
use ai_cyber_security_suite.Prelude.{
  ℕ, ◌+◌, ◌≤◌, ◌≡◌, ◌∙◌, refl, sym, inl, inr, Bool, true, false, ◌||◌, ◌&&◌, List, [], ◌∷◌,
  if◌then◌else◌, leb, keep, length, All, All-keep, All-keep_of, All-take, All-mono, All-and,
  length-take-le, arith, Bool-cases, ◌≢◌, ◌⊎◌, Option, none, some, ==_iff, ap, not, clash,
}
use ai_cyber_security_suite.Alerts.Model.{Alert}
use ai_cyber_security_suite.Correlation.{
  threshold, Norm, Indicators, matches_domain, matches_path, matches_ip, is_given, same_domain,
  points, compute_correlation_score, Event, insert_newest, newest_first, is_recent, recent_alerts,
  score_of, best_score, matching_of, correlate_event,
}

-- Two indicators are a match exactly if they share a domain that is not shared infrastructure, and
-- also a path or threat intelligence: an address, a path or intelligence alone never suffices.
pub score-reaches_iff :
    (slash : ℕ) (e c : Norm) (event_intel candidate_intel : Bool)
    → leb threshold (compute_correlation_score slash e c event_intel candidate_intel)
      ≡ (matches_domain e c && (matches_path slash e c || event_intel && candidate_intel))
unfolding compute_correlation_score
score-reaches_iff slash e c event_intel candidate_intel =
    by_tests (matches_domain e c) (matches_path slash e c) (event_intel && candidate_intel)
      (matches_ip e c)
  where
    by_tests :
        (d p i a : Bool)
        → leb threshold (points d 4000 + points p 2500 + points i 2500 + points a 1000)
          ≡ (d && (p || i))
    by_tests true true true true = refl
    by_tests true true true false = refl
    by_tests true true false true = refl
    by_tests true true false false = refl
    by_tests true false true true = refl
    by_tests true false true false = refl
    by_tests true false false true = refl
    by_tests true false false false = refl
    by_tests false true true true = refl
    by_tests false true true false = refl
    by_tests false true false true = refl
    by_tests false true false false = refl
    by_tests false false true true = refl
    by_tests false false true false = refl
    by_tests false false false true = refl
    by_tests false false false false = refl

All-insert_newest {ℓ} :
    (P : Alert → Type ℓ) (a : Alert) (rows : List Alert)
    → P a
    → All P rows
    → All P (insert_newest a rows)
All-insert_newest P a [] p h = (p, tt)
All-insert_newest P a (b ∷ bs) p h = elim (Bool-cases (leb b.last_seen_at a.last_seen_at)) [
  | inl e ↦ rw e (p, h)
  | inr e ↦ rw e (h.0, All-insert_newest P a bs p h.1)
]

All-newest_first {ℓ} :
    (P : Alert → Type ℓ) (rows : List Alert) → All P rows → All P (newest_first rows)
All-newest_first P [] h = tt
All-newest_first P (a ∷ rows) h =
    All-insert_newest P a (newest_first rows) h.0 (All-newest_first P rows h.1)

recent-own :
    (now : ℕ) (e : Event) (rows : List Alert)
    → All (λ a. is_recent now e a ≡ true) (recent_alerts now e rows)
recent-own now e rows =
    All-take _ 100 _
      (All-newest_first _ (keep (is_recent now e) rows) (All-keep (is_recent now e) rows))

-- The best score reaches the threshold exactly if it does at first or an alert matches.
best-reaches :
    (i : Indicators) (e : Event) (best : ℕ) (rows : List Alert)
    → leb threshold (best_score i e best rows)
      ≡ (leb threshold best || leb 1 (length (matching_of i e rows)))
best-reaches i e best [] = ground arith
best-reaches i e best (a ∷ rows) =
    best-reaches i e (if leb (score_of i e a) best then best else score_of i e a) rows
    ∙ ground arith

-- The indicators share a domain that neither marks as shared infrastructure.
abbrev pub SharesDomain : Norm → Norm → Type 0
SharesDomain e c =
    (e.is_shared_infra ≡ false)
    × (c.is_shared_infra ≡ false)
    × ((d : ℕ) × (e.registered_domain ≡ some d) × (c.registered_domain ≡ some d))

-- A matched alert is recent, of the event's user, and shares the domain, and also a path that is not
-- the root, or threat intelligence.
abbrev pub IsMatch : Indicators → ℕ → Event → Alert → Type 0
IsMatch i now e a =
    (is_recent now e a ≡ true)
    × SharesDomain (i.normal e.indicator_value) (i.normal a.indicator_value)
    × (((i.normal e.indicator_value).path ≡ (i.normal a.indicator_value).path)
          × ((i.normal e.indicator_value).path ≢ i.slash)
        ⊎ (e.has_intel ≡ true) × (i.is_intel_rule a.rule_name ≡ true))

same_domain-inv :
    (p q : Option ℕ)
    → (is_given p && (is_given q && same_domain p q)) ≡ true
    → (d : ℕ) × (p ≡ some d) × (q ≡ some d)
same_domain-inv none q h = absurd (cc)
same_domain-inv (some a) none h = absurd (cc)
same_domain-inv (some a) (some b) h = (a, refl, ap some (sym ((==_iff a b).0 h)))

domain-inv : (e c : Norm) → matches_domain e c ≡ true → SharesDomain e c
domain-inv e c h = elim (Bool-cases e.is_shared_infra) [
  | inl k ↦ absurd (clash _ h (shut_left e.is_shared_infra _ k))
  | inr k ↦ elim (Bool-cases c.is_shared_infra) [
    | inl m ↦ absurd (clash _ h (shut_right e.is_shared_infra c.is_shared_infra _ k m))
    | inr m ↦ (
      k,
      m,
      same_domain-inv e.registered_domain c.registered_domain
          (opened e.is_shared_infra c.is_shared_infra _ k m h),
    )
  ]
]
  where
    shut_left : (a r : Bool) → a ≡ true → (not a && r) ≡ false
    shut_left a r k = rw k refl

    shut_right : (a b r : Bool) → a ≡ false → b ≡ true → (not a && (not b && r)) ≡ false
    shut_right a b r k m = rw (k, m) refl

    opened : (a b r : Bool) → a ≡ false → b ≡ false → (not a && (not b && r)) ≡ true → r ≡ true
    opened true b r k m q = absurd (cc)
    opened false true r k m q = absurd (cc)
    opened false false r k m q = q

path-inv :
    (slash : ℕ) (e c : Norm) → matches_path slash e c ≡ true → (e.path ≡ c.path) × (e.path ≢ slash)
path-inv slash e c h = (ground arith, λ k. ground arith)

and-inv : (a b : Bool) → (a && b) ≡ true → (a ≡ true) × (b ≡ true)
and-inv true b h = (refl, h)
and-inv false b h = absurd (cc)

reached-IsMatch :
    (i : Indicators) (now : ℕ) (e : Event) (a : Alert)
    → is_recent now e a ≡ true
    → leb threshold (score_of i e a) ≡ true
    → IsMatch i now e a
reached-IsMatch i now e a recent high =
    let n = i.normal e.indicator_value in
    let m = i.normal a.indicator_value in
    let (d, more) =
      and-inv (matches_domain n m)
        (matches_path i.slash n m || e.has_intel && i.is_intel_rule a.rule_name)
        (sym (score-reaches_iff i.slash n m e.has_intel (i.is_intel_rule a.rule_name)) ∙ high) in
    (
      recent,
      domain-inv n m d,
      elim (Bool-cases (matches_path i.slash n m)) [
        | inl p ↦ inl (path-inv i.slash n m p)
        | inr p ↦ inr (and-inv e.has_intel (i.is_intel_rule a.rule_name) (rw p at more))
      ],
    )

-- Every alert that an event is correlated with was first seen in the last 24 hours, is of the event's
-- user (a system alert, for an event of none), and shares a domain that is not shared infrastructure,
-- and also a path other than the root, or threat intelligence. The event counts as correlated exactly
-- if there is a matched alert; at most 100 are evaluated. A fault correlates it with none.
pub correlate_event-IsMatch :
    (i : Indicators) (fails : Bool) (now : ℕ) (e : Event) (rows : List Alert)
    → All (IsMatch i now e) (correlate_event i fails now e rows).matching
      × ((correlate_event i fails now e rows).is_correlated
          ≡ leb 1 (length (correlate_event i fails now e rows).matching))
      × ((correlate_event i fails now e rows).evaluated ≤ 100)
unfolding correlate_event
correlate_event-IsMatch i true now e rows = (tt, refl, omega arith)
correlate_event-IsMatch i false now e rows =
    let recent = recent_alerts now e rows in
    (
      All-mono _ (IsMatch i now e)
          (λ a (h : (is_recent now e a ≡ true) × (leb threshold (score_of i e a) ≡ true)).
            reached-IsMatch i now e a h.0 h.1)
          (matching_of i e recent)
          (All-and _ _ (matching_of i e recent)
            (All-keep_of _ (λ a. leb threshold (score_of i e a)) recent (recent-own now e rows))
            (All-keep (λ a. leb threshold (score_of i e a)) recent)),
      best-reaches i e 0 recent,
      length-take-le 100 _,
    )
