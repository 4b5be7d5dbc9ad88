-- ===== src/Incidents/Editing/Requested.antt =====
-- The fields that an update asks for, and that its steps write them and no others.
use ai_cyber_security_suite.Prelude.{
  ℕ, ◌≡◌, ◌∙◌, ◌⊎◌, refl, sym, ap, subst, inl, inr, Bool, true, false, ◌||◌, ◌&&◌, Option, none,
  some, ltb, or_else, get_or, Bool-cases, clash, arith,
}
use ai_cyber_security_suite.Broadcaster.Envelope.{Severity, rank}
use ai_cyber_security_suite.Alerts.Model.{User}
use ai_cyber_security_suite.Incidents.Model.{
  IncidentStatus, same_status, may_become, Incident, Result, ok, err, ◌>>=◌,
}
use ai_cyber_security_suite.Incidents.Editing.{
  IncidentUpdate, differs, severity_eq, edit_texts, edits_texts, is_restricted, change_severity,
  change_status, edit,
}

-- A field that is asked for has the value asked for, and any other the one that it had.
abbrev pub Written {ℓ} : {A : Type ℓ} → Option A → A → A → Type ℓ
Written none old new = new ≡ old
Written (some x) old new = new ≡ x

-- The same of a column that may be NULL.
abbrev pub Filled : Option ℕ → Option ℕ → Option ℕ → Type 0
Filled none old new = new ≡ old
Filled (some x) old new = new ≡ some x

-- A row that has what an update of another row asks for.
pub record IsAsked (u : IncidentUpdate) (i b : Incident) : Type 0 where
  pub title : Written u.title i.title b.title
  pub description : Filled u.description i.description b.description
  pub assignee : Filled u.assigned_to_user_id i.assigned_to_user_id b.assigned_to_user_id
  pub notes : Filled u.resolution_notes i.resolution_notes b.resolution_notes
  pub severity : Written u.severity i.severity b.severity
  pub status : Written u.status i.status b.status

severity_eq→eq : (x y : Severity) → severity_eq x y ≡ true → x ≡ y
severity_eq→eq x y h = ground arith

same_status→eq : (x y : IncidentStatus) → same_status x y ≡ true → x ≡ y
same_status→eq x y h = ground arith

Written-get {ℓ} : {A : Type ℓ} (q : Option A) (old : A) → Written q old (get_or q old)
Written-get none old = refl
Written-get (some x) old = refl

Filled-or : (q old : Option ℕ) → Filled q old (or_else q old)
Filled-or none old = refl
Filled-or (some x) old = refl

severity_self : (x : Severity) → severity_eq x x ≡ true
severity_self x = ground arith

status_self : (x : IncidentStatus) → same_status x x ≡ true
status_self x = ground arith

-- A text that differs is not the one that is there.
other_title : (q : Option ℕ) (old : ℕ) → differs q (some old) ≡ true → ¬ Written q old old
other_title none old h e = clash _ h refl
other_title (some n) old h e = ground arith

other_field : (q old : Option ℕ) → differs q old ≡ true → ¬ Filled q old old
other_field none old h e = clash _ h refl
other_field (some n) none h e = cc
other_field (some n) (some m) h e = ground arith

or-true : (a b : Bool) → a || b ≡ true → (a ≡ true) ⊎ (b ≡ true)
or-true true b h = inl refl
or-true false b h = inr h

-- A text that does not differ is the one that is there.
same_title : (q : Option ℕ) (old : ℕ) → differs q (some old) ≡ false → get_or q old ≡ old
same_title none old h = refl
same_title (some n) old h = ground arith

same_field : (q old : Option ℕ) → differs q old ≡ false → or_else q old ≡ old
same_field none old h = refl
same_field (some n) none h = cc
same_field (some n) (some m) h = ground arith

or-false : (a b : Bool) → a || b ≡ false → (a ≡ false) × (b ≡ false)
or-false false b h = (refl, h)
or-false true b h = cc

texts_kept : (u : IncidentUpdate) (i : Incident) → edits_texts u i ≡ false → edit_texts u i ≡ i
texts_kept u i h =
    let (t, h1) = or-false (differs u.title (some i.title)) _ h in
    let (d, h2) = or-false (differs u.description i.description) _ h1 in
    let (a, n) = or-false (differs u.assigned_to_user_id i.assigned_to_user_id) _ h2 in
    rw
      (
        same_title u.title i.title t,
        same_field u.description i.description d,
        same_field u.assigned_to_user_id i.assigned_to_user_id a,
        same_field u.resolution_notes i.resolution_notes n,
      )
      refl

texts_asked : (u : IncidentUpdate) (i : Incident) → edits_texts u i ≡ true → ¬ IsAsked u i i
texts_asked u i h x = elim (or-true (differs u.title (some i.title)) _ h) [
  | inl e ↦ other_title u.title i.title e x.title
  | inr h1 ↦ elim (or-true (differs u.description i.description) _ h1) [
    | inl e ↦ other_field u.description i.description e x.description
    | inr h2 ↦ elim (or-true (differs u.assigned_to_user_id i.assigned_to_user_id) _ h2) [
      | inl e ↦ other_field u.assigned_to_user_id i.assigned_to_user_id e x.assignee
      | inr e ↦ other_field u.resolution_notes i.resolution_notes e x.notes
    ]
  ]
]

-- What a step makes of a row, that it changes nothing where it tells of no change, and that it tells of
-- none where the row is as asked for.
abbrev Sets : (Incident → Incident) → Type 0 → Incident → Result (Incident × Bool) → Type 0
Sets f P b (ok r) = (r.0 ≡ f r.0) × (r.1 ≡ false → r.0 ≡ b) × (r.1 ≡ true → ¬ P)
Sets f P b (err e) = Unit

change_severity-Sets :
    (user : Option User) (q : Option Severity) (b : Incident)
    → Sets
        (λ _. record b { severity = get_or q b.severity })
        (Written q b.severity b.severity)
        b
        (change_severity user q b)
unfolding change_severity
change_severity-Sets user none b = (refl, (λ h. refl), λ h. absurd (clash _ h refl))
change_severity-Sets user (some s) b = elim (Bool-cases (severity_eq s b.severity)) [
  | inl same ↦
      rw same
        (rw (severity_eq→eq s b.severity same) refl, (λ h. refl), λ h. absurd (clash _ h refl))
  | inr other ↦ elim (Bool-cases (ltb (rank s) (rank b.severity) && is_restricted user)) [
    | inl down ↦ rw (other, down) tt
    | inr up ↦
        rw (other, up)
          (refl, (λ h. absurd (clash _ refl h)), λ _ e. clash _ (severity_self s) (rw e at other))
  ]
]

change_status-Sets :
    (now : ℕ) (q : Option IncidentStatus) (b : Incident)
    → Sets
        (λ x. record b { status = get_or q b.status; closed_at = x.closed_at })
        (Written q b.status b.status)
        b
        (change_status now q b)
unfolding change_status
change_status-Sets now none b = (refl, (λ h. refl), λ h. absurd (clash _ h refl))
change_status-Sets now (some new) b = elim (Bool-cases (same_status new b.status)) [
  | inl same ↦
      rw same
        (rw (same_status→eq new b.status same) refl, (λ h. refl), λ h. absurd (clash _ h refl))
  | inr other ↦ elim (Bool-cases (may_become b.status new)) [
    | inl can ↦
        rw (other, can)
          (refl, (λ h. absurd (clash _ refl h)), λ _ e. clash _ (status_self new) (rw e at other))
    | inr no_way ↦ rw (other, no_way) tt
  ]
]

-- The row of an edit has what was asked for, an edit that tells of no change made none, and one that tells
-- of a change was asked for one.
abbrev pub Asks : IncidentUpdate → Incident → Result (Incident × Bool) → Type 0
Asks u i (ok r) = IsAsked u i r.0 × (r.1 ≡ false → r.0 ≡ i) × (r.1 ≡ true → ¬ IsAsked u i i)
Asks u i (err e) = Unit

asked :
    (u : IncidentUpdate) (i b : Incident)
    → b ≡ record (edit_texts u i) {
      severity = get_or u.severity i.severity;
      status = get_or u.status i.status;
      closed_at = b.closed_at;
    }
    → IsAsked u i b
asked u i b e = record {
  title = rw (ap (λ x. x.title) e) (Written-get u.title i.title);
  description = rw (ap (λ x. x.description) e) (Filled-or u.description i.description);
  assignee =
      rw (ap (λ x. x.assigned_to_user_id) e)
        (Filled-or u.assigned_to_user_id i.assigned_to_user_id);
  notes = rw (ap (λ x. x.resolution_notes) e) (Filled-or u.resolution_notes i.resolution_notes);
  severity = rw (ap (λ x. x.severity) e) (Written-get u.severity i.severity);
  status = rw (ap (λ x. x.status) e) (Written-get u.status i.status);
}

then_done :
    (u : IncidentUpdate) (i b : Incident) (k : Bool) (q : Result (Incident × Bool))
    → b ≡ record (edit_texts u i) { severity = get_or u.severity i.severity }
    → (k ≡ false → b ≡ edit_texts u i)
    → (k ≡ true → ¬ Written u.severity i.severity i.severity)
    → Sets
        (λ x. record b { status = get_or u.status b.status; closed_at = x.closed_at })
        (Written u.status b.status b.status)
        b
        q
    → Asks u i (q >>= λ t. ok (t.0, edits_texts u i || (k || t.1)))
then_done u i b k (err e) made same other h = tt
then_done u i b k (ok (c, l)) made same other h = (
  asked u i c (
      h.0
      ∙ ap {A = Incident} {B = Incident}
          (λ x. record x { status = get_or u.status x.status; closed_at = c.closed_at }) made),
  (λ none_changed.
      let (t, rest) = or-false (edits_texts u i) _ none_changed in
      let (s, m) = or-false k l rest in h.1 m ∙ same s ∙ texts_kept u i t),
  λ changed x. elim (or-true (edits_texts u i) _ changed) [
    | inl t ↦ texts_asked u i t x
    | inr rest ↦ elim (or-true k l rest) [
      | inl s ↦ other s x.severity
      | inr m ↦
          h.2 m (subst (λ st. Written u.status st st) (sym (ap (λ y. y.status) made)) x.status)
    ]
  ],
)

then_status :
    (now : ℕ) (u : IncidentUpdate) (i : Incident) (q : Result (Incident × Bool))
    → Sets
        (λ _. record (edit_texts u i) { severity = get_or u.severity i.severity })
        (Written u.severity i.severity i.severity)
        (edit_texts u i)
        q
    → Asks u i (
        q >>= λ s.
        change_status now u.status s.0 >>= λ t. ok (t.0, edits_texts u i || (s.1 || t.1)))
then_status now u i (err e) h = tt
then_status now u i (ok (b, k)) h =
    then_done u i b k (change_status now u.status b) h.0 h.1 h.2 (change_status-Sets now u.status b)

pub edit-Asks :
    (now : ℕ) (user : Option User) (u : IncidentUpdate) (i : Incident)
    → Asks u i (edit now user u i)
unfolding edit
edit-Asks now user u i =
    then_status now u i (change_severity user u.severity (edit_texts u i))
      (change_severity-Sets user u.severity (edit_texts u i))
