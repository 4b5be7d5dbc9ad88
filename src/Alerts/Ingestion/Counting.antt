-- ===== src/Alerts/Ingestion/Counting.antt =====
-- What ingestion does to the rows that exist, and the events that their counts add up to.
use ai_cyber_security_suite.Prelude.{
  ℕ, ◌≤◌, ◌≡◌, ◌⊎◌, ◌∙◌, refl, sym, subst, inl, inr, Bool, true, false, ◌&&◌, Option, none, some,
  get_or, some_inj, List, [], ◌∷◌, ◌++◌, leb, ltb, ◌==◌, ==_iff, find, update, All, All-mono,
  All-find, find_passes, Distinct, row_of, row_of_self, arith, Bool-cases, clash,
}
use ai_cyber_security_suite.Broadcaster.Envelope.{Severity, rank}
use ai_cyber_security_suite.Alerts.Model.{Alert}
use ai_cyber_security_suite.Alerts.Ingestion.{
  Texts, Event, Desk, Draw, Processed, done, raised, same_user, is_active, is_candidate, later,
  newest, higher_severity, grouped, retried, new_alert, retry_event, insert_event, unless_active,
  process_event, fingerprint_of,
}

key : Alert → ℕ
key a = a.ident

pub later-cases : (a : Alert) (o : Option Alert) → (later a o ≡ some a) ⊎ (later a o ≡ o)
later-cases a none = inl refl
later-cases a (some b) = elim (Bool-cases (ltb a.last_seen_at b.last_seen_at)) [
  | inl e ↦ inr (rw e refl)
  | inr e ↦ inl (rw e refl)
]

module _ (test : Alert → Bool) where
  -- What holds of every row holds of the newest that passes, and so does the test.
  pub newest-All {κ} :
      (P : Alert → Type κ) (xs : List Alert) (a : Alert)
      → All P xs
      → newest test xs ≡ some a
      → P a × (test a ≡ true)
  newest-All P [] a h e = absurd (cc)
  newest-All P (x ∷ xs) a h e = elim (Bool-cases (test x)) [
    | inl y ↦ elim (later-cases x (newest test xs)) [
      | inl f ↦
          let same : x ≡ a = some_inj.0 (sym f ∙ rw y at e) in
          subst (λ z. P z × (test z ≡ true)) same (h.0, y)
      | inr f ↦ newest-All P xs a h.1 (sym f ∙ rw y at e)
    ]
    | inr n ↦ newest-All P xs a h.1 (rw n at e)
  ]

-- What an event may do to a row: nothing, unless the row is active and its user's.
pub record Evolves (user : Option ℕ) (x y : Alert) : Type 0 where
  pub same_ident : y.ident ≡ x.ident
  pub same_uuid : y.alert_uuid ≡ x.alert_uuid
  pub same_owner : y.user_id ≡ x.user_id
  pub same_status : y.status ≡ x.status
  pub same_start : y.first_seen_at ≡ x.first_seen_at
  pub counts_on : x.occurrence_count ≤ y.occurrence_count
  pub no_downgrade : rank x.severity ≤ rank y.severity
  pub protected : (is_active x && same_user user x) ≡ false → y ≡ x

-- The rows of a table are those of another, as they have evolved, and maybe more.
abbrev pub Continues : Option ℕ → List Alert → List Alert → Type 0
Continues user [] ys = Unit
Continues user (x ∷ xs) [] = ⊥
Continues user (x ∷ xs) (y ∷ ys) = Evolves user x y × Continues user xs ys

Evolves-refl : (user : Option ℕ) (x : Alert) → Evolves user x x
Evolves-refl user x = record {
  same_ident = refl;
  same_uuid = refl;
  same_owner = refl;
  same_status = refl;
  same_start = refl;
  counts_on = omega arith;
  no_downgrade = omega arith;
  protected = λ h. refl;
}

Continues-snoc : (user : Option ℕ) (xs ys : List Alert) → Continues user xs (xs ++ ys)
Continues-snoc user [] ys = tt
Continues-snoc user (x ∷ xs) ys = (Evolves-refl user x, Continues-snoc user xs ys)

Continues-update :
    (user : Option ℕ) (k : ℕ) (f : Alert → Alert) (xs : List Alert)
    → All (λ x. (x.ident == k) ≡ true → Evolves user x (f x)) xs
    → Continues user xs (update (λ y. y.ident == k) f xs)
Continues-update user k f [] h = tt
Continues-update user k f (x ∷ xs) h = elim (Bool-cases (x.ident == k)) [
  | inl e ↦ rw e (h.0 e, Continues-update user k f xs h.1)
  | inr e ↦ rw e (Evolves-refl user x, Continues-update user k f xs h.1)
]

higher_severity_le : (s t : Severity) → rank s ≤ rank (higher_severity s t)
higher_severity_le s t = elim (Bool-cases (leb (rank t) (rank s))) [
  | inl e ↦ rw e (omega arith)
  | inr e ↦ rw e (ground arith)
]

-- A candidate is active and of the event's user.
candidate-own :
    (x : Texts) (now : ℕ) (e : Event) (rule : Option ℕ) (a : Alert)
    → is_candidate x now e rule a ≡ true
    → (is_active a && same_user e.user_id a) ≡ true
candidate-own x now e rule a h = ground arith

module _ (x : Texts) (e : Event) (rule : Option ℕ) (now : ℕ) (a : Alert)
    (own : is_candidate x now e rule a ≡ true) where
  grouped-Evolves :
      (incident : Option ℕ) (fp : ℕ) → Evolves e.user_id a (grouped now fp e incident a)
  grouped-Evolves incident fp = record {
    same_ident = refl;
    same_uuid = refl;
    same_owner = refl;
    same_status = refl;
    same_start = refl;
    counts_on = omega arith;
    no_downgrade = higher_severity_le a.severity e.severity;
    protected = λ h. absurd (clash _ (candidate-own x now e rule a own) h);
  }

  retried-Evolves : Evolves e.user_id a (retried now e a)
  retried-Evolves = record {
    same_ident = refl;
    same_uuid = refl;
    same_owner = refl;
    same_status = refl;
    same_start = refl;
    counts_on = omega arith;
    no_downgrade = higher_severity_le a.severity e.severity;
    protected = λ h. absurd (clash _ (candidate-own x now e rule a own) h);
  }

-- In a table with distinct ids, the rows of a row's id are that row.
only_row :
    (k : ℕ) (a : Alert) (xs zs : List Alert)
    → row_of (λ y. y.ident) k zs ≡ some a
    → All (λ y. row_of (λ z. z.ident) y.ident zs ≡ some y) xs
    → All (λ y. (y.ident == k) ≡ true → y ≡ a) xs
only_row k a [] zs found h = tt
only_row k a (y ∷ ys) zs found h =
    (λ e. some_inj.0 (sym h.0 ∙ (rw ((==_iff y.ident k).0 e) found)), only_row k a ys zs found h.1)

module _ (user : Option ℕ) (f : Alert → Alert) (xs : List Alert)
    (d : Distinct (λ y. y.ident) xs) where
  update-Continues :
      (a : Alert)
      → row_of (λ y. y.ident) a.ident xs ≡ some a
      → Evolves user a (f a)
      → Continues user xs (update (λ y. y.ident == a.ident) f xs)
  update-Continues a found step = Continues-update user a.ident f xs (
      All-mono _ (λ y. (y.ident == a.ident) ≡ true → Evolves user y (f y))
        (λ y same e. subst (λ z. Evolves user z (f z)) (sym (same e)) step) xs
        (only_row a.ident a xs xs found (row_of_self (λ y. y.ident) xs d)))

-- The rows that the call reads last: those that a failed insert is retried on, or those at its start.
abbrev pub rows_read : Draw → Desk → Option Alert → List Alert
rows_read d s (some a) = s.alerts
rows_read d s none = get_or d.race s.alerts

abbrev pub IsKept : Option ℕ → List Alert → Processed → Type 0
IsKept user rows (done t a new) = Continues user rows t.alerts
IsKept user rows (raised t) = t.alerts ≡ rows

module _ (x : Texts) (d : Draw) (e : Event) (rule incident : Option ℕ) (s : Desk) where
  retry-IsKept :
      (rows : List Alert) (o : Option Alert)
      → Distinct (λ y. y.ident) rows
      → ((a : Alert)
          → o ≡ some a
          → (row_of (λ y. y.ident) a.ident rows ≡ some a) × (is_candidate x d.now e rule a ≡ true))
      → IsKept e.user_id rows (retry_event d e (record s { alerts = rows }) o)
  retry-IsKept rows none keyed f = refl
  retry-IsKept rows (some a) keyed f =
      let (found, own) = f a refl in
      update-Continues e.user_id (retried d.now e) rows keyed a found
        (retried-Evolves x e rule d.now a own)

  insert-IsKept :
      (race : Option (List Alert))
      → Distinct (λ y. y.ident) (get_or race s.alerts)
      → IsKept e.user_id (get_or race s.alerts) (insert_event x d e rule incident s race)
  insert-IsKept none keyed = Continues-snoc e.user_id s.alerts (new_alert x d e rule incident ∷ [])
  insert-IsKept (some rows) keyed =
      retry-IsKept rows (find (is_candidate x d.now e rule) rows) keyed (λ a h. (
        All-find (λ y. row_of (λ z. z.ident) y.ident rows ≡ some y) _ rows a
            (row_of_self (λ y. y.ident) rows keyed) h,
        find_passes _ rows a h,
      ))

  unless-IsKept :
      (o : Option Alert)
      → Distinct (λ y. y.ident) (rows_read d s o)
      → ((a : Alert)
          → o ≡ some a
          → (row_of (λ y. y.ident) a.ident s.alerts ≡ some a)
            × (is_candidate x d.now e rule a ≡ true))
      → IsKept e.user_id (rows_read d s o) (unless_active x d e rule incident s o)
  unless-IsKept none keyed f = insert-IsKept d.race keyed
  unless-IsKept (some a) keyed f =
      let (found, own) = f a refl in
      update-Continues e.user_id (grouped d.now (fingerprint_of x e rule) e incident) s.alerts keyed
        a found (grouped-Evolves x e rule d.now a own incident (fingerprint_of x e rule))

  -- On every branch, the retry after a failed insert included, each row that the call read last stays
  -- in its place with its id, owner, status and start; its count and severity never fall, and it is
  -- untouched unless it is active and of the event's user. An event that raises leaves the rows so.
  pub process_event-IsKept :
      Distinct (λ y. y.ident) s.alerts
      → Distinct (λ y. y.ident) (get_or d.race s.alerts)
      → IsKept e.user_id
          (rows_read d s (newest (is_candidate x d.now e rule) s.alerts))
          (process_event x d e rule incident s)
  unfolding process_event
  process_event-IsKept keyed raced =
      unless-IsKept (newest (is_candidate x d.now e rule) s.alerts)
        (read-Distinct (newest (is_candidate x d.now e rule) s.alerts))
        (λ a h.
          newest-All (is_candidate x d.now e rule)
            (λ y. row_of (λ z. z.ident) y.ident s.alerts ≡ some y) s.alerts a
            (row_of_self (λ y. y.ident) s.alerts keyed) h)
    where
      read-Distinct : (o : Option Alert) → Distinct (λ y. y.ident) (rows_read d s o)
      read-Distinct none = raced
      read-Distinct (some a) = keyed
