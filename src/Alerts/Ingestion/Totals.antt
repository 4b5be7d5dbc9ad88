-- ===== src/Alerts/Ingestion/Totals.antt =====
-- What the occurrence counts add up to.
use ai_cyber_security_suite.Prelude.{
  ℕ, ◌+◌, ◌≤◌, ◌<◌, ◌≡◌, ◌≢◌, refl, inl, inr, Option, none, some, List, [], ◌∷◌, ◌++◌,
  if◌then◌else◌, ◌==◌, ==_iff, length, update, All, All-append, All-mono, All-update, Distinct,
  Distinct-update, row_of, row_of_self, arith, Bool-cases,
}
use ai_cyber_security_suite.Alerts.Model.{Alert}
use ai_cyber_security_suite.Alerts.Ingestion.{
  Texts, Desk, is_candidate, newest, grouped, new_alert, unless_active, process_event,
  fingerprint_of,
}
use ai_cyber_security_suite.Alerts.Ingestion.Counting.{newest-All}
use ai_cyber_security_suite.Alerts.Ingestion.Calls.{Call, draw_of, desk_of, step, serve}

abbrev pub total : List Alert → ℕ
total [] = 0
total (a ∷ rows) = a.occurrence_count + total rows

-- The ids below which a table and above which calls draw.
abbrev pub IsBelow : ℕ → List Alert → Type 0
IsBelow n rows = All (λ a. a.ident < n) rows

abbrev pub DrawsFrom : ℕ → List Call → Type 0
DrawsFrom n [] = Unit
DrawsFrom n (c ∷ cs) = (n ≤ c.ident) × DrawsFrom (c.ident + 1) cs

total-snoc :
    (rows : List Alert) (a : Alert) → total (rows ++ a ∷ []) ≡ total rows + a.occurrence_count
total-snoc [] a = omega arith
total-snoc (r ∷ rows) a = omega (arith, total-snoc rows a)

total-update_absent :
    (k : ℕ) (f : Alert → Alert) (rows : List Alert)
    → All (λ y. k ≢ y.ident) rows
    → total (update (λ y. y.ident == k) f rows) ≡ total rows
total-update_absent k f [] h = refl
total-update_absent k f (r ∷ rows) h = ground (arith, h.0, total-update_absent k f rows h.1)

-- An UPDATE of one row that counts one event more.
total-update :
    (k : ℕ) (f : Alert → Alert)
    → ((y : Alert) → (f y).occurrence_count ≡ y.occurrence_count + 1)
    → (rows : List Alert) (a : Alert) → row_of (λ y. y.ident) k rows ≡ some a
    → Distinct (λ y. y.ident) rows
    → total (update (λ y. y.ident == k) f rows) ≡ total rows + 1
total-update k f one [] a found d = absurd (cc)
total-update k f one (r ∷ rows) a found d = elim (Bool-cases (r.ident == k)) [
  | inl e ↦
      let others = rw ((==_iff r.ident k).0 e) at d.0 in
      rw e (omega (arith, one r, total-update_absent k f rows others))
  | inr e ↦ rw e (omega (arith, total-update k f one rows a (rw e at found) d.1))
]

snoc-Distinct :
    (rows : List Alert) (a : Alert)
    → IsBelow a.ident rows
    → Distinct (λ y. y.ident) rows
    → Distinct (λ y. y.ident) (rows ++ a ∷ [])
snoc-Distinct [] a h d = (tt, tt)
snoc-Distinct (r ∷ rows) a h d = (
  All-append (λ y. r.ident ≢ y.ident) rows (a ∷ []) d.0 ((λ e. omega arith), tt),
  snoc-Distinct rows a h.1 d.1,
)

record Tally (n : ℕ) (rows : List Alert) : Type 0 where
  below : IsBelow n rows
  keyed : Distinct (λ y. y.ident) rows

-- One event later: the rows, and one event more.
abbrev Counted : Call → List Alert → List Alert → Type 0
Counted c rows after = Tally (c.ident + 1) after × (total after ≡ total rows + 1)

unless-Counted :
    (x : Texts) (c : Call) (s : Desk) (n : ℕ) (o : Option Alert)
    → n ≤ c.ident
    → Tally n s.alerts
    → ((a : Alert) → o ≡ some a → row_of (λ y. y.ident) a.ident s.alerts ≡ some a)
    → Counted c s.alerts
        (desk_of (unless_active x (draw_of c) c.event c.rule c.incident s o)).alerts
unless-Counted x c s n none room t f =
    let a = new_alert x (draw_of c) c.event c.rule c.incident in
    (
      record {
        below =
            All-append (λ y. y.ident < c.ident + 1) s.alerts (a ∷ [])
              (All-mono _ _ (λ y (k : y.ident < n). omega arith) s.alerts t.below)
              (omega arith, tt);
        keyed =
            snoc-Distinct s.alerts a
              (All-mono _ _ (λ y (k : y.ident < n). omega arith) s.alerts t.below) t.keyed;
      },
      total-snoc s.alerts a,
    )
unless-Counted x c s n (some a) room t f =
    let assign = grouped c.now (fingerprint_of x c.event c.rule) c.event c.incident in
    (
      record {
        below =
            All-update (λ y. y.ident < c.ident + 1) (λ y. y.ident == a.ident) assign s.alerts
              (All-mono _ (λ y. (if y.ident == a.ident then assign y else y).ident < c.ident + 1)
                (λ y (k : y.ident < n). ground arith) s.alerts t.below);
        keyed =
            Distinct-update (λ y. y.ident) (λ y. y.ident == a.ident) assign (λ y. refl) s.alerts
              t.keyed;
      },
      total-update a.ident assign (λ y. refl) s.alerts a (f a refl) t.keyed,
    )

step-Counted :
    (x : Texts) (c : Call) (s : Desk) (n : ℕ)
    → n ≤ c.ident
    → Tally n s.alerts
    → Counted c s.alerts (step x c s).alerts
unfolding process_event
step-Counted x c s n room t =
    unless-Counted x c s n (newest (is_candidate x c.now c.event c.rule) s.alerts) room t (λ a h.
      (newest-All (is_candidate x c.now c.event c.rule)
        (λ y. row_of (λ z. z.ident) y.ident s.alerts ≡ some y) s.alerts a
        (row_of_self (λ y. y.ident) s.alerts t.keyed) h).0)

-- No event is lost or counted twice: over any sequence of events of any rules, users and times, whose
-- inserts succeed, the occurrence counts of all alerts grow by the number of events; the ids drawn for
-- new alerts ascend, from above those of the table.
pub serve-total :
    (x : Texts) (cs : List Call) (s : Desk) (n : ℕ)
    → DrawsFrom n cs
    → IsBelow n s.alerts
    → Distinct (λ y. y.ident) s.alerts
    → total (serve x cs s).alerts ≡ total s.alerts + length cs
serve-total x [] s n draws below keyed = omega arith
serve-total x (c ∷ cs) s n draws below keyed =
    let (t, one) = step-Counted x c s n draws.0 (record { below = below; keyed = keyed }) in
    omega (arith, one, serve-total x cs (step x c s) (c.ident + 1) draws.1 t.below t.keyed)
