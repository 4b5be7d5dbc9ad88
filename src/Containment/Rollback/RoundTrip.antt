-- ===== src/Containment/Rollback/RoundTrip.antt =====
-- An action and its reversal.
use ai_cyber_security_suite.Prelude.{
  ℕ, ◌+◌, ◌≡◌, refl, true, false, ◌||◌, ◌&&◌, none, some, List, [], ◌∷◌, ◌++◌, ◌==◌, ==_iff, find,
  keep, update, All,
}
use ai_cyber_security_suite.Alerts.Model.{User}
use ai_cyber_security_suite.Containment.Model.{
  blacklist_indicator, executed, Action, BlacklistEntry, Target, Tables,
}
use ai_cyber_security_suite.Containment.Allowlist.{Urls, is_whitelisted}
use ai_cyber_security_suite.Containment.Policies.{get_or_create_policy}
use ai_cyber_security_suite.Containment.Actions.{
  Request, has_key, listed, perform, execute_action, new_entry, action_row, Outcome, plain,
  fenced_type, perform_as,
}
use ai_cyber_security_suite.Containment.Actions.Identity.{find-snoc, policy-Frames}
use ai_cyber_security_suite.Containment.Actions.Rule0.{synthesized_blacklist}
use ai_cyber_security_suite.Containment.Rollback.{
  may_revert, created_by, deactivated, revert_action,
}

abbrev pub target_id : Target → ℕ
target_id g = g.ident

abbrev pub cleared : Target → Target
cleared g = record g { last_error_message = none }

-- No action has the request's key, nor the uuid that is drawn next.
abbrev pub Fresh : Request → Tables → Type 0
Fresh r t =
    (find (has_key r) t.actions ≡ none)
    × (find (λ a. a.action_uuid == (t.next + 1)) t.actions ≡ none)

abbrev quarantined_row : Request → Tables → Target → Action
quarantined_row r t g =
    action_row r t.next (t.next + 1)
      (record { status = executed; incident_id = none; quarantined = some g.ident })

abbrev listed_row : Request → Tables → Action
listed_row r t =
    action_row r t.next (t.next + 1)
      (record { status = executed; incident_id = none; quarantined = none })

executed_as :
    (u : Urls) (r : Request) (t : Tables) (x : Tables × Outcome)
    → find (has_key r) t.actions ≡ none
    → fenced_type r.action_type && is_whitelisted u r.target_identifier ≡ false
    → perform_as r t.next (t.next + 1) r.action_type (record t { next = t.next + 2 }) ≡ x
    → x.1 ≡ plain executed
    → ((execute_action u r t).0.blacklist ≡ x.0.blacklist)
      × ((execute_action u r t).0.actions ≡ x.0.actions ++ listed_row r t ∷ [])
      × ((execute_action u r t).1 ≡ listed_row r t)
unfolding execute_action perform
executed_as u r t x new gate e ok = rw (new, gate, e, ok) (refl, refl, refl)

blacklist_as :
    (r : Request) (ident uuid : ℕ) (t : Tables)
    → keep (listed r) t.blacklist ≡ []
    → ((perform_as r ident uuid blacklist_indicator t).0.blacklist
        ≡ t.blacklist
          ++ new_entry r ident
              (get_or_create_policy r.tenant_id t).1.blacklist_ttl_seconds
              (get_or_create_policy r.tenant_id t).0.next
            ∷ [])
      × ((perform_as r ident uuid blacklist_indicator t).0.actions ≡ t.actions)
      × ((perform_as r ident uuid blacklist_indicator t).1 ≡ plain executed)
blacklist_as r ident uuid t clear =
    rw
      (
        synthesized_blacklist r.tenant_id t,
        clear,
        synthesized_blacklist r.tenant_id t,
        (policy-Frames r.tenant_id t).0,
      )
      (refl, refl, refl)

revert_blacklist :
    (now : ℕ) (user : User) (t : Tables) (a : Action)
    → find (λ x. x.action_uuid == a.action_uuid) t.actions ≡ some a
    → may_revert user a ≡ true
    → a.status ≡ executed
    → a.action_type ≡ blacklist_indicator
    → (revert_action now user a.action_uuid t).0.blacklist
      ≡ update (created_by a.ident) (deactivated now) t.blacklist
unfolding revert_action
revert_blacklist now user t a found may st ty = rw (found, may, st, ty) refl

-- The active entries after the only entry of an action is deactivated.
active_back :
    (now n : ℕ) (es : List BlacklistEntry) (e : BlacklistEntry)
    → All (λ x. created_by n x ≡ false) es
    → created_by n e ≡ true
    → keep (λ x. x.is_active) (update (created_by n) (deactivated now) (es ++ e ∷ []))
      ≡ keep (λ x. x.is_active) es
active_back now n [] e h own = rw own refl
active_back now n (x ∷ es) e h own = rw (h.0, active_back now n es e h.1 own) refl

-- A blacklisting and its reversal: an indicator off the allowlist that is not on the tenant's blacklist
-- is put there by an action, and when a user of the tenant, or an admin, reverts the action, the active
-- entries are those of before. The key, the uuid and the id of the action are new.
pub blacklist_roundtrip :
    (u : Urls) (now : ℕ) (user : User) (r : Request) (t : Tables)
    → Fresh r t
    → All (λ e. created_by t.next e ≡ false) t.blacklist
    → r.action_type ≡ blacklist_indicator
    → is_whitelisted u r.target_identifier ≡ false
    → keep (listed r) t.blacklist ≡ []
    → ((r.tenant_id == user.ident) || user.is_admin) ≡ true
    → let done = execute_action u r t in
      keep (λ e. e.is_active) (revert_action now user done.1.action_uuid done.0).0.blacklist
      ≡ keep (λ e. e.is_active) t.blacklist
blacklist_roundtrip u now user r t fresh unused ty pass clear may =
    let t0 = record t { next = t.next + 2 } in
    let a = listed_row r t in
    let added = blacklist_as r t.next (t.next + 1) t0 clear in
    let done =
      executed_as u r t (perform_as r t.next (t.next + 1) blacklist_indicator t0) fresh.0
        (rw (ty, pass) refl) (rw ty refl) added.2 in
    let there : find (λ x. x.action_uuid == a.action_uuid) (execute_action u r t).0.actions
        ≡ some a =
      rw (done.1, added.1)
        (find-snoc _ t.actions a fresh.1 ((==_iff (t.next + 1) (t.next + 1)).1 refl)) in
    rw
      (
        done.2,
        revert_blacklist now user (execute_action u r t).0 a there may refl ty,
        done.0,
        added.0,
      )
      (active_back now t.next t.blacklist _ unused (rw ((==_iff t.next t.next).1 refl) refl))
