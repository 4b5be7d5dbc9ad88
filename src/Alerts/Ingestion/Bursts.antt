-- ===== src/Alerts/Ingestion/Bursts.antt =====
-- How many alerts a burst of events makes.
use ai_cyber_security_suite.Prelude.{
  ℕ, ◌+◌, ◌≤◌, ◌≡◌, ◌∙◌, refl, sym, ap, subst, inl, inr, Bool, true, Option, none, some, some_inj,
  List, [], ◌∷◌, Memᴰ, if◌then◌else◌, ltb, ◌==◌, ==_iff, any, any-snoc, length, length-append,
  update, All, arith, Bool-cases,
}
use ai_cyber_security_suite.Alerts.Model.{Alert}
use ai_cyber_security_suite.Alerts.Ingestion.{
  Texts, Event, Desk, Draw, same_user, is_candidate, dedup_window, later, newest, grouped,
  new_alert, unless_active, process_event, fingerprint_of,
}
use ai_cyber_security_suite.Alerts.Ingestion.Counting.{newest-All, later-cases}
use ai_cyber_security_suite.Alerts.Ingestion.Calls.{Call, draw_of, desk_of, step, serve}

-- The rows have an active alert for the event at a time.
abbrev Active : Texts → Event → Option ℕ → ℕ → List Alert → Type 0
Active x e rule now rows = any (is_candidate x now e rule) rows ≡ true

later_found : (r : Alert) (o : Option Alert) → (a : Alert) × (later r o ≡ some a)
later_found r none = (r, refl)
later_found r (some b) = elim (Bool-cases (ltb r.last_seen_at b.last_seen_at)) [
  | inl e ↦ (b, rw e refl)
  | inr e ↦ (r, rw e refl)
]

newest-found :
    (test : Alert → Bool) (rows : List Alert)
    → any test rows ≡ true
    → (a : Alert) × (newest test rows ≡ some a)
newest-found test [] h = absurd (cc)
newest-found test (r ∷ rows) h = elim (Bool-cases (test r)) [
  | inl e ↦ rw e (later_found r (newest test rows))
  | inr e ↦ rw e (newest-found test rows (rw e at h))
]

newest-Memᴰ :
    (test : Alert → Bool) (rows : List Alert) (a : Alert) → newest test rows ≡ some a → Memᴰ a rows
newest-Memᴰ test [] a h = absurd (cc)
newest-Memᴰ test (r ∷ rows) a h = elim (Bool-cases (test r)) [
  | inl e ↦ elim (later-cases r (newest test rows)) [
    | inl f ↦ Memᴰ.head (sym (some_inj.0 (sym f ∙ rw e at h)))
    | inr f ↦ Memᴰ.tail (newest-Memᴰ test rows a (sym f ∙ rw e at h))
  ]
  | inr e ↦ Memᴰ.tail (newest-Memᴰ test rows a (rw e at h))
]

-- The updated row passes a test that its new value passes.
any-update :
    (test : Alert → Bool) (f : Alert → Alert) (a : Alert) (rows : List Alert)
    → Memᴰ a rows
    → test (f a) ≡ true
    → any test (update (λ y. y.ident == a.ident) f rows) ≡ true
any-update test f a [] m h = elim m [ ]
any-update test f a (r ∷ rows) (Memᴰ.head same) h =
    let own : (r.ident == a.ident) ≡ true =
      (==_iff r.ident a.ident).1 (ap (λ (z : Alert). z.ident) (sym same)) in
    let pass : test (f r) ≡ true = subst (λ z. test (f z) ≡ true) same h in rw (own, pass) refl
any-update test f a (r ∷ rows) (Memᴰ.tail m) h =
    elim (Bool-cases (test (if r.ident == a.ident then f r else r))) [
      | inl e ↦ rw e refl
      | inr e ↦ rw e (any-update test f a rows m h)
    ]

same_user_own : (u : Option ℕ) (a : Alert) → a.user_id ≡ u → same_user u a ≡ true
same_user_own none a h = rw h refl
same_user_own (some n) a h = rw h (ground arith)

-- A row that has just been seen is a candidate until the window ends.
module _ (x : Texts) (e : Event) (rule : Option ℕ) (next now : ℕ)
    (soon : next ≤ now + dedup_window) where
  new_alert-IsCandidate :
      (d : Draw) (incident : Option ℕ)
      → d.now ≡ now
      → is_candidate x next e rule (new_alert x d e rule incident) ≡ true
  new_alert-IsCandidate d incident at =
      ground (arith, same_user_own e.user_id (new_alert x d e rule incident) refl)

  grouped-IsCandidate :
      (incident : Option ℕ) (a : Alert)
      → is_candidate x now e rule a ≡ true
      → is_candidate x next e rule (grouped now (fingerprint_of x e rule) e incident a) ≡ true
  grouped-IsCandidate incident a own = ground arith

-- Each call is of the event and rule of the one before, and at most the window later.
abbrev pub IsBurst : Call → List Call → Type 0
IsBurst c [] = Unit
IsBurst c (d ∷ cs) =
    (d.event ≡ c.event) × (d.rule ≡ c.rule) × (d.now ≤ c.now + dedup_window) × IsBurst d cs

length-update :
    (test : Alert → Bool) (f : Alert → Alert) (rows : List Alert)
    → length (update test f rows) ≡ length rows
length-update test f [] = refl
length-update test f (r ∷ rows) = omega (arith, length-update test f rows)

module _ (x : Texts) (c : Call) (s : Desk) where
  -- After a call, the table has an active alert for its event until the window ends.
  unless-Active :
      (next : ℕ) (o : Option Alert)
      → next ≤ c.now + dedup_window
      → newest (is_candidate x c.now c.event c.rule) s.alerts ≡ o
      → Active x c.event c.rule next
          (desk_of (unless_active x (draw_of c) c.event c.rule c.incident s o)).alerts
  unless-Active next none soon h =
      any-snoc _ s.alerts (new_alert x (draw_of c) c.event c.rule c.incident)
        (new_alert-IsCandidate x c.event c.rule next c.now soon (draw_of c) c.incident refl)
  unless-Active next (some a) soon h =
      let test = is_candidate x c.now c.event c.rule in
      any-update (is_candidate x next c.event c.rule)
        (grouped c.now (fingerprint_of x c.event c.rule) c.event c.incident) a s.alerts
        (newest-Memᴰ test s.alerts a h)
        (grouped-IsCandidate x c.event c.rule next c.now soon c.incident a
          (newest-All test (λ y. Unit {0}) s.alerts a (all_rows s.alerts) h).1)
    where
      all_rows : (rows : List Alert) → All (λ y. Unit {0}) rows
      all_rows [] = tt
      all_rows (r ∷ rows) = (tt, all_rows rows)

  step-Active :
      (next : ℕ) → next ≤ c.now + dedup_window → Active x c.event c.rule next (step x c s).alerts
  unfolding process_event
  step-Active next soon = unless-Active next _ soon refl

  unless-length :
      (o : Option Alert)
      → length (desk_of (unless_active x (draw_of c) c.event c.rule c.incident s o)).alerts
        ≤ length s.alerts + 1
  unless-length none =
      omega (arith, length-append s.alerts (new_alert x (draw_of c) c.event c.rule c.incident ∷ []))
  unless-length (some a) = omega (
    arith,
    length-update (λ y. y.ident == a.ident)
        (grouped c.now (fingerprint_of x c.event c.rule) c.event c.incident) s.alerts,
  )

  step-length : length (step x c s).alerts ≤ length s.alerts + 1
  unfolding process_event
  step-length = unless-length (newest (is_candidate x c.now c.event c.rule) s.alerts)

  -- An event for which there is an active alert makes none.
  grouped-length :
      Active x c.event c.rule c.now s.alerts → length (step x c s).alerts ≡ length s.alerts
  unfolding process_event
  grouped-length h =
      let (a, found) = newest-found (is_candidate x c.now c.event c.rule) s.alerts h in
      rw found (
        length-update (λ y. y.ident == a.ident)
          (grouped c.now (fingerprint_of x c.event c.rule) c.event c.incident) s.alerts)

burst_length :
    (x : Texts) (c : Call) (cs : List Call) (s : Desk)
    → IsBurst c cs
    → ((next : ℕ) → next ≤ c.now + dedup_window → Active x c.event c.rule next s.alerts)
    → length (serve x cs s).alerts ≡ length s.alerts
burst_length x c [] s b f = refl
burst_length x c (d ∷ cs) s (same, rule, soon, b) f =
    let active : Active x d.event d.rule d.now s.alerts =
      subst (λ v. Active x v d.rule d.now s.alerts) (sym same)
        (subst (λ v. Active x c.event v d.now s.alerts) (sym rule) (f d.now soon)) in
    burst_length x d cs (step x d s) b (λ next k. step-Active x d s next k)
    ∙ grouped-length x d s active

-- Storm suppression: however many events of one kind come, each at most fifteen minutes after the one
-- before, at most one alert is made for all of them.
pub serve-burst :
    (x : Texts) (c : Call) (cs : List Call) (s : Desk)
    → IsBurst c cs
    → length (serve x (c ∷ cs) s).alerts ≤ length s.alerts + 1
serve-burst x c cs s b =
    let same = burst_length x c cs (step x c s) b (λ next k. step-Active x c s next k) in
    omega (arith, same, step-length x c s)
