-- ===== src/Incidents/Linking/Attachment.antt =====
-- What an attachment checks and guarantees, and what a failed creation leaves.
use ai_cyber_security_suite.Prelude.{
  ℕ, ◌≤◌, ◌≡◌, ◌⊎◌, refl, sym, subst, ◌∙◌, ◌<◌, inl, inr, true, false, ◌||◌, Option, List, [], ◌∷◌,
  ◌++◌, ◌==◌, is_none, mem, keep, length, All, All-keep_back, Bool-cases, arith,
}
use ai_cyber_security_suite.Broadcaster.Envelope.{Severity, rank}
use ai_cyber_security_suite.Alerts.Model.{Alert, User}
use ai_cyber_security_suite.Incidents.Model.{
  Incident, Store, Failure, not_found, Result, ok, err, ◌>>=◌, ◌>>◌, guard, Identifier,
  get_incident, higher_severity, owns_alert, set_incident,
}
use ai_cyber_security_suite.Incidents.Linking.{
  requested, none_missing, is_attached, check_alerts, highest, linked, escalated, attach_found,
  attach_alerts, IncidentCreate, new_incident, created, create_incident,
}

abbrev Succeeds {ℓ} : {A : Type ℓ} → Result A → Type 0
Succeeds (ok a) = Unit
Succeeds (err e) = ⊥

err≢ok {ℓ} : {A : Type ℓ} {e : Failure} {a : A} → ¬ err e ≡ ok a
err≢ok h = subst (λ r. Succeeds r) (sym h) tt

highest_of : (s : Severity) (as_ : List Alert) → rank s ≤ rank (highest s as_)
highest_of s [] = omega arith
highest_of s (a ∷ as_) = ground (arith, highest_of (higher_severity s a.severity) as_)

highest-All :
    (s : Severity) (as_ : List Alert) → All (λ a. rank a.severity ≤ rank (highest s as_)) as_
highest-All s [] = tt
highest-All s (a ∷ as_) = (
  ground (arith, highest_of (higher_severity s a.severity) as_),
  highest-All (higher_severity s a.severity) as_,
)

higher_left : (a b : Severity) → rank a ≤ rank (higher_severity a b)
higher_left a b = ground arith

escalated-le :
    (i : Incident) (before found after : List Alert)
    → rank i.severity ≤ rank (escalated i before found after)
escalated-le i before found after = omega (
  arith,
  highest_of i.severity before,
  highest_of (highest i.severity before) found,
  higher_left (highest (highest i.severity before) found) i.severity,
  highest_of (higher_severity (highest (highest i.severity before) found) i.severity) after,
)

-- The alert may be attached: it is in the user's scope, and in no other incident.
abbrev pub MayAttach : Option User → ℕ → Alert → Type 0
MayAttach user n a = (owns_alert user a ≡ true) × (is_none a.incident_id || is_attached n a ≡ true)

checked :
    (user : Option User) (n : ℕ) (as_ : List Alert)
    → check_alerts user n as_ ≡ ok tt
    → All (MayAttach user n) as_
unfolding check_alerts
checked user n [] h = tt
checked user n (a ∷ as_) h = elim (Bool-cases (owns_alert user a)) [
  | inr foreign ↦ absurd (err≢ok (rw foreign at h))
  | inl own ↦ elim (Bool-cases (is_none a.incident_id || is_attached n a)) [
    | inr taken ↦ absurd (err≢ok (rw (own, taken) at h))
    | inl free ↦ ((own, free), checked user n as_ (rw (own, free) at h))
  ]
]

abbrev pub Sound : Option User → Identifier → List ℕ → Store → Store × Incident → Type 0
Sound user n ids s r =
    (i : Incident) × (get_incident user n s.incidents ≡ ok i)
    × (r.0.incidents ≡ set_incident i.ident (λ _. r.1) s.incidents)
    × (r.0.alerts ≡ linked i.ident ids s.alerts)
    × (rank i.severity ≤ rank r.1.severity)
    × All (λ a. mem a.ident ids ≡ true → MayAttach user i.ident a) s.alerts
    × All (λ a. is_attached i.ident a ≡ true → rank a.severity ≤ rank r.1.severity) r.0.alerts

attach_found-Sound :
    (now : ℕ) (user : Option User) (n : Identifier) (ids : List ℕ) (s : Store) (i : Incident)
    → get_incident user n s.incidents ≡ ok i
    → check_alerts user i.ident (requested ids s.alerts) ≡ ok tt
    → Sound user n ids s (attach_found now user ids i s)
unfolding attach_found
attach_found-Sound now user n ids s i found pass =
    let before = keep (is_attached i.ident) s.alerts in
    let asked = requested ids s.alerts in
    let alerts = linked i.ident ids s.alerts in
    let after = keep (is_attached i.ident) alerts in
    (
      i,
      found,
      refl,
      refl,
      escalated-le i before asked after,
      All-keep_back _ _ s.alerts (checked user i.ident asked pass),
      All-keep_back _ _ alerts (
          highest-All (higher_severity (highest (highest i.severity before) asked) i.severity)
            after),
    )

may-All :
    (user : Option User) (n : ℕ) (as_ : List Alert)
    → All (MayAttach user n) as_
    → check_alerts user n as_ ≡ ok tt
unfolding check_alerts
may-All user n [] h = refl
may-All user n (a ∷ as_) h = rw (h.0.0, h.0.1) (may-All user n as_ h.1)

-- What a result tells of the call that gave it.
abbrev pub Attached : Option User → Identifier → List ℕ → Store → Result (Store × Incident) → Type 0
Attached user n ids s (ok r) = Sound user n ids s r
Attached user n ids s (err e) =
    (get_incident user n s.incidents ≡ err e)
    ⊎ ((i : Incident) × (get_incident user n s.incidents ≡ ok i)
        × ((none_missing ids (requested ids s.alerts) ≡ false)
            ⊎ ¬ All (MayAttach user i.ident) (requested ids s.alerts)))

after_checks :
    (now : ℕ) (user : Option User) (n : Identifier) (ids : List ℕ) (s : Store) (i : Incident)
    → get_incident user n s.incidents ≡ ok i
    → (q : Result (Unit {0})) → check_alerts user i.ident (requested ids s.alerts) ≡ q
    → Attached user n ids s (q >> ok (attach_found now user ids i s))
after_checks now user n ids s i found (ok tt) pass =
    attach_found-Sound now user n ids s i found pass
after_checks now user n ids s i found (err e) fail =
    inr (i, found, inr (λ h. err≢ok (sym fail ∙ may-All user i.ident _ h)))

after_get :
    (now : ℕ) (user : Option User) (n : Identifier) (ids : List ℕ) (s : Store)
    → (g : Result Incident) → get_incident user n s.incidents ≡ g
    → Attached user n ids s (
        g >>= λ i.
        guard (none_missing ids (requested ids s.alerts)) not_found
        >> (check_alerts user i.ident (requested ids s.alerts)
            >> ok (attach_found now user ids i s)))
after_get now user n ids s (err e) found = inl found
after_get now user n ids s (ok i) found =
    elim (Bool-cases (none_missing ids (requested ids s.alerts))) [
      | inr missing ↦ rw missing (inr (i, found, inl missing))
      | inl whole ↦ rw whole (after_checks now user n ids s i found _ refl)
    ]

-- Attaching one or more alerts, when it succeeds, rewrites the row of an incident that the user may see
-- and no other one, never lowers its severity, and attaches only alerts that the user may attach and
-- that no other incident has; afterwards no attached alert is more severe than the incident. It fails
-- only when the incident is not found, or an alert does not exist, or one may not be attached.
pub attach_alerts-Attached :
    (now : ℕ) (user : Option User) (n : Identifier) (k : ℕ) (ks : List ℕ) (s : Store)
    → Attached user n (k ∷ ks) s (attach_alerts now user n (k ∷ ks) s)
unfolding attach_alerts
attach_alerts-Attached now user n k ks s =
    after_get now user n (k ∷ ks) s (get_incident user n s.incidents) refl

created_err :
    (user : Option User) (s : Store) (e : Failure) (q : Result (Store × Incident))
    → (created user s q).1 ≡ err e
    → (created user s q).0 ≡ s
created_err user s e (ok r) h = absurd (err≢ok (sym h))
created_err user s e (err f) h = refl

-- A creation that fails does so because its alerts cannot be attached; the new incident is in the tables
-- all the same, without its alerts and without an audit row.
pub create_incident_error :
    (now : ℕ) (user : Option User) (ident uuid : ℕ) (c : IncidentCreate) (s : Store) (e : Failure)
    → (create_incident now user ident uuid c s).1 ≡ err e
    → (0 < length c.alert_ids)
      × ((create_incident now user ident uuid c s).0
          ≡ record s { incidents = s.incidents ++ new_incident now user ident uuid c ∷ [] })
unfolding create_incident
create_incident_error now user ident uuid c s e h = elim (Bool-cases (length c.alert_ids == 0)) [
  | inl nil ↦ absurd (err≢ok (sym (rw nil at h)))
  | inr some_ids ↦ (ground arith, rw some_ids (created_err user _ e _ (rw some_ids at h)))
]
