-- ===== src/Incidents/Threats/Uniqueness.antt =====
-- How many active incidents a user has of one title, under the requests of the monitoring pipeline.
use ai_cyber_security_suite.Prelude.{
  ℕ, suc, ◌≤◌, ◌≡◌, refl, sym, ap, inl, some-ne-none, inr, Bool, true, false, Option, none, some,
  List, [], ◌∷◌, ltb, ==_iff, find, keep, length, update, order_by, All, All-mono, All-order_by,
  length-append, keep-append, find-none, All-order_by_back, Bool-cases, arith, ◌∙◌,
}
use ai_cyber_security_suite.Broadcaster.Envelope.{rank}
use ai_cyber_security_suite.Incidents.Model.{Incident, Store}
use ai_cyber_security_suite.Incidents.Threats.{
  Threat, same_user, concerns, escalate, threat_row, resolve_threat, get_or_create_threat_incident,
}

abbrev query : Threat → List Incident → Option Incident
query t is = find (concerns t) (order_by (λ i. i.ident) is)

-- No two active incidents are of one user and one title.
unfoldable pub IsUnique : List Incident → Type 0
IsUnique is = (t : Threat) → length (keep (concerns t) is) ≤ 1

-- The requests in the order of the lock that serializes them.
abbrev pub serve : List Threat → Store → Store
serve [] s = s
serve (t ∷ ts) s = serve ts (get_or_create_threat_incident t s).0

length-keep-update {ℓ} :
    {A : Type ℓ} (test : A → Bool) (f : A → A) (q : A → Bool)
    → ((x : A) → q (f x) ≡ q x)
    → (xs : List A) → length (keep q (update test f xs)) ≡ length (keep q xs)
length-keep-update test f q same [] = refl
length-keep-update test f q same (x ∷ xs) =
    ground (arith, same x, length-keep-update test f q same xs)

none_kept {ℓ} :
    {A : Type ℓ} (q : A → Bool) (xs : List A) → All (λ x. q x ≡ false) xs → keep q xs ≡ []
none_kept q [] h = refl
none_kept q (x ∷ xs) h = rw (h.0, none_kept q xs h.1) refl

concerns-escalate : (t u : Threat) (i : Incident) → concerns u (escalate t i) ≡ concerns u i
concerns-escalate t u i = elim (Bool-cases (ltb (rank i.severity) (rank t.severity))) [
  | inl e ↦ rw e refl
  | inr e ↦ rw e refl
]

same_user_iff : (a b c : Option ℕ) → same_user a b ≡ true → same_user a c ≡ same_user b c
same_user_iff none none c h = refl
same_user_iff none (some b) c h = cc
same_user_iff (some a) none c h = cc
same_user_iff (some a) (some b) c h = rw ((==_iff b a).0 h) refl

-- Two requests that concern one new row are for one user and one title.
concerns_same :
    (t u : Threat) → concerns u (threat_row t) ≡ true → (i : Incident) → concerns u i ≡ concerns t i
concerns_same t u h i =
    let parts : (same_user u.user_id t.user_id ≡ true) × (t.title ≡ u.title) = ground arith in
    rw (same_user_iff u.user_id t.user_id i.created_by_user_id parts.0, parts.1) refl

resolve-IsUnique :
    (t : Threat) (s : Store) (q : Option Incident)
    → query t s.incidents ≡ q
    → IsUnique s.incidents
    → IsUnique (resolve_threat t s q).0.incidents
unfolding IsUnique
resolve-IsUnique t s (some i) found unique u =
    rw (length-keep-update _ (escalate t) (concerns u) (concerns-escalate t u) s.incidents)
      (unique u)
resolve-IsUnique t s none found unique u = elim (Bool-cases (concerns u (threat_row t))) [
  | inr other ↦
      rw (keep-append (concerns u) s.incidents (threat_row t ∷ []), other)
        (omega (arith, length-append (keep (concerns u) s.incidents) [], unique u))
  | inl new ↦
      let same = λ (i : Incident). concerns_same t u new i in
      let nil : keep (concerns u) s.incidents ≡ [] = none_kept _ _ (
        All-mono _ _ (λ i h. same i ∙ h) s.incidents
          (All-order_by_back _ _ s.incidents (find-none _ _ found))) in
      rw (keep-append (concerns u) s.incidents (threat_row t ∷ []), nil, new) (omega arith)
]

-- A table in which no user has two active incidents of one title is such a table after any sequence of
-- requests of the monitoring pipeline.
pub serve-IsUnique :
    (ts : List Threat) (s : Store) → IsUnique s.incidents → IsUnique (serve ts s).incidents
unfolding get_or_create_threat_incident
serve-IsUnique [] s h = h
serve-IsUnique (t ∷ ts) s h =
    serve-IsUnique ts (get_or_create_threat_incident t s).0
      (resolve-IsUnique t s (query t s.incidents) refl h)

find-All-none {ℓ} :
    {A : Type ℓ} (q : A → Bool) (xs : List A) → All (λ x. q x ≡ false) xs → find q xs ≡ none
find-All-none q [] h = refl
find-All-none q (x ∷ xs) h = rw (h.0, find-All-none q xs h.1) refl

nil-All-false {ℓ} :
    {A : Type ℓ} (q : A → Bool) (xs : List A) → length (keep q xs) ≡ 0 → All (λ x. q x ≡ false) xs
nil-All-false q [] h = tt
nil-All-false q (x ∷ xs) h = elim (Bool-cases (q x)) [
  | inl e ↦ absurd (omega (arith, rw e at h))
  | inr e ↦ (e, nil-All-false q xs (rw e at h))
]

same_user_self : (a : Option ℕ) → same_user a a ≡ true
same_user_self none = refl
same_user_self (some a) = (==_iff a a).1 refl

concerns_own : (t : Threat) → concerns t (threat_row t) ≡ true
concerns_own t = rw (same_user_self t.user_id, (==_iff t.title t.title).1 refl) refl

concerns_alike :
    (t u : Threat) → u.user_id ≡ t.user_id → u.title ≡ t.title → concerns u ≡ concerns t
concerns_alike t u e f = rw (e, f) refl

length-update {ℓ} :
    {A : Type ℓ} (test : A → Bool) (f : A → A) (xs : List A) → length (update test f xs) ≡ length xs
length-update test f [] = refl
length-update test f (x ∷ xs) = ap (λ n. suc n) (length-update test f xs)

-- A request leaves an incident that concerns it.
kept_one :
    (t : Threat) (s : Store) (q : Option Incident)
    → query t s.incidents ≡ q
    → ¬ length (keep (concerns t) (resolve_threat t s q).0.incidents) ≡ 0
kept_one t s (some i) found h =
    let before : length (keep (concerns t) s.incidents) ≡ 0 =
      sym (length-keep-update _ (escalate t) (concerns t) (concerns-escalate t t) s.incidents)
      ∙ h in
    some-ne-none i (
      sym found
      ∙ find-All-none (concerns t) (order_by (λ i. i.ident) s.incidents)
          (All-order_by _ _ s.incidents (nil-All-false _ s.incidents before)))
kept_one t s none found h = omega (
  arith,
  length-append (keep (concerns t) s.incidents) (threat_row t ∷ []),
  rw (keep-append (concerns t) s.incidents (threat_row t ∷ []), concerns_own t) at h,
)

again :
    (u : Threat) (s : Store) (q : Option Incident)
    → query u s.incidents ≡ q
    → ¬ length (keep (concerns u) s.incidents) ≡ 0
    → ((resolve_threat u s q).2 ≡ false)
      × (length (resolve_threat u s q).0.incidents ≡ length s.incidents)
      × (rank u.severity ≤ rank (resolve_threat u s q).1.severity)
again u s none found h =
    absurd (h (rw (none_kept _ _ (All-order_by_back _ _ s.incidents (find-none _ _ found))) refl))
again u s (some i) found h = (refl, length-update _ (escalate u) s.incidents, ground arith)

-- A request that follows one for the same user and title makes no incident: it is answered by one that
-- is there, with a severity that is at least its own.
pub get_or_create_threat_incident_again :
    (t u : Threat) (s : Store)
    → u.user_id ≡ t.user_id
    → u.title ≡ t.title
    → let first = (get_or_create_threat_incident t s).0 in
      let second = get_or_create_threat_incident u first in
      (second.2 ≡ false)
      × (length second.0.incidents ≡ length first.incidents)
      × (rank u.severity ≤ rank second.1.severity)
unfolding get_or_create_threat_incident
get_or_create_threat_incident_again t u s same_user_id same_title =
    again u (resolve_threat t s (query t s.incidents)).0 _ refl (λ h.
      kept_one t s (query t s.incidents) refl
        (rw (concerns_alike t u same_user_id same_title) at h))
