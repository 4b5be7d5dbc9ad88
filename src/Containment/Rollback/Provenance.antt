-- ===== src/Containment/Rollback/Provenance.antt =====
-- What a reversal answers on every path, and which rows it may touch.
use ai_cyber_security_suite.Prelude.{
  ℕ, ◌≡◌, ◌≢◌, ◌⊎◌, refl, sym, ◌∙◌, some_inj, some-ne-none, inl, inr, Bool, true, false, not,
  Option, none, some, List, [], ◌∷◌, ◌++◌, ◌&&◌, ◌==◌, sql_eq, find, keep, update, All, Bool-cases,
  arith,
}
use ai_cyber_security_suite.Alerts.Model.{User}
use ai_cyber_security_suite.Containment.Model.{
  ActionType, blacklist_indicator, invalidate_cache, quarantine_target, create_incident,
  emit_soc_event, send_notification, ActionStatus, Action, BlacklistEntry, Target, of_uuid,
  containment_reverted, action_reverted, Tables,
}
use ai_cyber_security_suite.Containment.Rollback.{
  Reply, not_found, bad_request, answered, may_revert, created_by, deactivated, names_action,
  owns_quarantine, released, release_target, undo, signed_off, revert_by_status, revert_found,
  revert_action,
}

-- Rows that an update changes into rows that a filter drops as well.
keep-update {ℓ} :
    {A : Type ℓ} (q test : A → Bool) (f : A → A)
    → ((x : A) → q (f x) ≡ q x)
    → ((x : A) → test x ≡ true → q x ≡ false)
    → (xs : List A) → keep q (update test f xs) ≡ keep q xs
keep-update q test f same drops [] = refl
keep-update q test f same drops (x ∷ xs) = elim (Bool-cases (test x)) [
  | inl e ↦ rw (e, same x, drops x e, keep-update q test f same drops xs) refl
  | inr e ↦ rw (e, keep-update q test f same drops xs) refl
]

none_left {ℓ} :
    {A : Type ℓ} (test : A → Bool) (f : A → A) (xs : List A)
    → ((x : A) → test (f x) ≡ false)
    → All (λ x. test x ≡ false) (update test f xs)
none_left test f [] h = tt
none_left test f (x ∷ xs) h = elim (Bool-cases (test x)) [
  | inl e ↦ rw e (h x, none_left test f xs h)
  | inr e ↦ rw e (e, none_left test f xs h)
]

abbrev pub is_of_action : Action → BlacklistEntry → Bool
is_of_action a e = sql_eq e.containment_action_id a.ident

abbrev pub is_its_target : Action → Target → Bool
is_its_target a g = sql_eq a.quarantined g.ident

-- What the rollback of an action leaves alone, and what it takes back.
pub record Undone (now : ℕ) (a : Action) (t v : Tables) : Type 0 where
  pub other_entries :
      keep (λ e. not (is_of_action a e)) v.blacklist
      ≡ keep (λ e. not (is_of_action a e)) t.blacklist
  pub other_targets :
      keep (λ g. not (is_its_target a g)) v.targets ≡ keep (λ g. not (is_its_target a g)) t.targets
  pub no_entry :
      a.action_type ≡ blacklist_indicator → All (λ e. created_by a.ident e ≡ false) v.blacklist
  pub no_quarantine :
      (n : ℕ)
      → a.action_type ≡ quarantine_target
      → a.quarantined ≡ some n
      → All (λ g. owns_quarantine a n g ≡ false) v.targets
  pub entries_ended :
      a.action_type ≡ blacklist_indicator
      → v.blacklist
        ≡ update
            (λ e. sql_eq e.containment_action_id a.ident && e.is_active)
            (λ e. record e { is_active = false; updated_at = now })
            t.blacklist
  pub target_active :
      (n : ℕ)
      → a.action_type ≡ quarantine_target
      → a.quarantined ≡ some n
      → v.targets
        ≡ update
            (λ g.
              g.ident == n
              && (g.user_id == a.tenant_id && names_action a.action_uuid g.last_error_message))
            (λ g. record g { is_active = true; last_error_message = none })
            t.targets
  pub other_type :
      a.action_type ≢ blacklist_indicator
      → a.action_type ≢ quarantine_target
      → (v.blacklist ≡ t.blacklist) × (v.targets ≡ t.targets)
  pub same_soc : v.soc ≡ t.soc
  pub same_runs : v.runs ≡ t.runs
  pub same_policies : v.policies ≡ t.policies

created_is_own :
    (a : Action) (e : BlacklistEntry) → created_by a.ident e ≡ true → not (is_of_action a e) ≡ false
created_is_own a e h = ground arith

deactivated_ends : (now n : ℕ) (e : BlacklistEntry) → created_by n (deactivated now e) ≡ false
deactivated_ends now n e = ground arith

owned_is_its :
    (a : Action) (n : ℕ) (g : Target)
    → a.quarantined ≡ some n
    → owns_quarantine a n g ≡ true
    → not (is_its_target a g) ≡ false
owned_is_its a n g e h = rw e (ground arith)

released_ends : (a : Action) (n : ℕ) (g : Target) → owns_quarantine a n (released g) ≡ false
released_ends a n g = ground arith

-- A rollback that changes neither table, of an action with nothing to take back.
nothing :
    (now : ℕ) (u : User) (a : Action) (t : Tables)
    → ¬ a.action_type ≡ blacklist_indicator
    → ((n : ℕ) → a.action_type ≡ quarantine_target → ¬ a.quarantined ≡ some n)
    → Undone now a t (signed_off now u a t)
nothing now u a t b q = record {
  other_entries = refl;
  other_targets = refl;
  no_entry = λ e. absurd (b e);
  no_quarantine = λ n e f. absurd (q n e f);
  entries_ended = λ e. absurd (b e);
  target_active = λ n e f. absurd (q n e f);
  other_type = λ h k. (refl, refl);
  same_soc = refl;
  same_runs = refl;
  same_policies = refl;
}

Undone-target :
    (now : ℕ) (u : User) (a : Action) (t : Tables) (q : Option ℕ)
    → a.action_type ≡ quarantine_target
    → a.quarantined ≡ q
    → Undone now a t (signed_off now u a (release_target a q t))
Undone-target now u a t none ty e =
    nothing now u a t (λ h. cc) (λ n h f. some-ne-none n (sym f ∙ e))
Undone-target now u a t (some n) ty e = record {
  other_entries = refl;
  other_targets =
      keep-update (λ g. not (is_its_target a g)) (owns_quarantine a n) released (λ g. refl)
        (λ g. owned_is_its a n g e) t.targets;
  no_entry = λ h. absurd (cc);
  no_quarantine = λ m h f.
      rw (← some_inj.0 (sym e ∙ f))
        (none_left (owns_quarantine a n) released t.targets (released_ends a n));
  entries_ended = λ h. absurd (cc);
  target_active = λ m h f. rw (← some_inj.0 (sym e ∙ f)) refl;
  other_type = λ h k. absurd (k ty);
  same_soc = refl;
  same_runs = refl;
  same_policies = refl;
}

undone :
    (now : ℕ) (u : User) (a : Action) (t : Tables) (ty : ActionType)
    → a.action_type ≡ ty
    → Undone now a t (signed_off now u a (undo now a ty t))
undone now u a t blacklist_indicator e = record {
  other_entries =
      keep-update (λ x. not (is_of_action a x)) (created_by a.ident) (deactivated now) (λ x. refl)
        (created_is_own a) t.blacklist;
  other_targets = refl;
  no_entry = λ h.
      none_left (created_by a.ident) (deactivated now) t.blacklist (deactivated_ends now a.ident);
  no_quarantine = λ n h f. absurd (cc);
  entries_ended = λ h. refl;
  target_active = λ n h f. absurd (cc);
  other_type = λ h k. absurd (h e);
  same_soc = refl;
  same_runs = refl;
  same_policies = refl;
}
undone now u a t quarantine_target e = Undone-target now u a t a.quarantined e refl
undone now u a t invalidate_cache e = nothing now u a t (λ h. cc) (λ n h f. cc)
undone now u a t create_incident e = nothing now u a t (λ h. cc) (λ n h f. cc)
undone now u a t emit_soc_event e = nothing now u a t (λ h. cc) (λ n h f. cc)
undone now u a t send_notification e = nothing now u a t (λ h. cc) (λ n h f. cc)

-- What a reversal signs: the row of its action, one audit row and one event.
pub record Signed (now : ℕ) (u : User) (a : Action) (t v : Tables) : Type 0 where
  pub row :
      v.actions
      ≡ update
          (λ x. x.ident == a.ident)
          (λ x. record x {
            status = ActionStatus.reverted;
            reverted_at = some now;
            reverted_by_user_id = some u.ident;
          })
          t.actions
  pub audited :
      v.audits
      ≡ t.audits
        ++ record {
          action = action_reverted;
          actor_user_id = some u.ident;
          resource_id = a.action_uuid;
        }
          ∷ []
  pub told :
      v.events
      ≡ t.events
        ++ record {
          event_id = t.next;
          tenant_id = a.tenant_id;
          event_type = containment_reverted;
          aggregate_id = of_uuid a.action_uuid;
        }
          ∷ []

undo-Signed :
    (now : ℕ) (u : User) (a : Action) (ty : ActionType) (t : Tables)
    → Signed now u a t (signed_off now u a (undo now a ty t))
undo-Signed now u a blacklist_indicator t = record { row = refl; audited = refl; told = refl }
undo-Signed now u a quarantine_target t = release_Signed a.quarantined
  where
    release_Signed : (q : Option ℕ) → Signed now u a t (signed_off now u a (release_target a q t))
    release_Signed none = record { row = refl; audited = refl; told = refl }
    release_Signed (some n) = record { row = refl; audited = refl; told = refl }
undo-Signed now u a invalidate_cache t = record { row = refl; audited = refl; told = refl }
undo-Signed now u a create_incident t = record { row = refl; audited = refl; told = refl }
undo-Signed now u a emit_soc_event t = record { row = refl; audited = refl; told = refl }
undo-Signed now u a send_notification t = record { row = refl; audited = refl; told = refl }

-- What a reply tells of the call that gave it.
abbrev pub Reversal : ℕ → User → ℕ → Tables → Tables × Reply → Type 0
Reversal now u uuid t (v, not_found) =
    (v ≡ t)
    × ((find (λ a. a.action_uuid == uuid) t.actions ≡ none)
        ⊎ ((a : Action) × (find (λ x. x.action_uuid == uuid) t.actions ≡ some a)
            × (may_revert u a ≡ false)))
Reversal now u uuid t (v, bad_request) =
    (v ≡ t)
    × ((a : Action) × (find (λ x. x.action_uuid == uuid) t.actions ≡ some a)
        × (may_revert u a ≡ true)
        × (a.status ≢ ActionStatus.executed)
        × (a.status ≢ ActionStatus.reverted))
Reversal now u uuid t (v, answered b) =
    (a : Action) × (find (λ x. x.action_uuid == uuid) t.actions ≡ some a)
    × (may_revert u a ≡ true)
    × (((a.status ≡ ActionStatus.reverted) × (v ≡ t) × (b ≡ a))
        ⊎ ((a.status ≡ ActionStatus.executed)
            × (b.status ≡ ActionStatus.reverted)
            × (b.reverted_at ≡ some now)
            × (b.reverted_by_user_id ≡ some u.ident)
            × Signed now u a t v
            × Undone now a t v))

by_status :
    (now : ℕ) (u : User) (uuid : ℕ) (t : Tables) (a : Action) (st : ActionStatus)
    → find (λ x. x.action_uuid == uuid) t.actions ≡ some a
    → may_revert u a ≡ true
    → a.status ≡ st
    → Reversal now u uuid t (revert_by_status now u a st t)
by_status now u uuid t a ActionStatus.reverted found may e = (a, found, may, inl (e, refl, refl))
by_status now u uuid t a ActionStatus.executed found may e = (
  a,
  found,
  may,
  inr (
    e,
    refl,
    refl,
    refl,
    undo-Signed now u a a.action_type t,
    undone now u a t a.action_type refl,
  ),
)
by_status now u uuid t a ActionStatus.pending found may e =
    (refl, (a, found, may, (λ h. cc), (λ h. cc)))
by_status now u uuid t a ActionStatus.failed found may e =
    (refl, (a, found, may, (λ h. cc), (λ h. cc)))
by_status now u uuid t a ActionStatus.blocked_by_allowlist found may e =
    (refl, (a, found, may, (λ h. cc), (λ h. cc)))
by_status now u uuid t a ActionStatus.skipped found may e =
    (refl, (a, found, may, (λ h. cc), (λ h. cc)))

by_row :
    (now : ℕ) (u : User) (uuid : ℕ) (t : Tables) (q : Option Action)
    → find (λ x. x.action_uuid == uuid) t.actions ≡ q
    → Reversal now u uuid t (revert_found now u t q)
by_row now u uuid t none found = (refl, inl found)
by_row now u uuid t (some a) found = elim (Bool-cases (may_revert u a)) [
  | inl may ↦ rw may (by_status now u uuid t a a.status found may refl)
  | inr foreign ↦ rw foreign (refl, inr (a, found, foreign))
]

-- A reversal answers 404, and writes nothing, exactly for an action that does not exist or that the user
-- may not revert; 400, and writes nothing, for one that is neither executed nor reverted; it leaves a
-- reverted one as it is; and an executed one becomes reverted, with the time and the user, one audit row
-- and one event are appended, and exactly its own active entries become inactive or the target of its own
-- quarantine becomes active again without its message. The other actions' entries, the other targets, the
-- alerts and incidents, the runs and the policies stay as they are, and an action of another type changes
-- neither blacklist nor targets.
pub revert_action-Reversal :
    (now : ℕ) (u : User) (uuid : ℕ) (t : Tables)
    → Reversal now u uuid t (revert_action now u uuid t)
unfolding revert_action
revert_action-Reversal now u uuid t =
    by_row now u uuid t (find (λ a. a.action_uuid == uuid) t.actions) refl
