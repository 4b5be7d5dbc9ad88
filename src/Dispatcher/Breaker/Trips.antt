-- ===== src/Dispatcher/Breaker/Trips.antt =====
-- The breaker of a user: when it trips, and that a trip is audited once.
use ai_cyber_security_suite.Prelude.{
  subst, ◌≢◌, is_none, ℕ, ◌+◌, ◌≤◌, ◌<◌, ◌≡◌, ◌⊎◌, inl, inr, Bool, true, false, not, ◌&&◌, Option,
  none, some, List, [], ◌∷◌, ◌++◌, if◌then◌else◌, leb, ◌==◌, any, update, get_or, row_of,
  row_of-update, row_of-key, count, count-snoc, any-snoc, any-append-left, Bool-cases, arith, refl,
  sym,
}
use native.Mathlib.Decide.{ℕ_discrete}
use ai_cyber_security_suite.Dispatcher.Outbox.{Preference, AuditEvent, Store}
use ai_cyber_security_suite.Dispatcher.Breaker.{
  breaker_limit, counted, user_of, is_trip_action, recorded_since, trip_audit, ssrf_audit, announce,
  audit_ssrf, increment_circuit_breaker, reset_counter,
}

-- An audit event that a breaker of this user tripped.
abbrev pub is_trip : ℕ → AuditEvent → Bool
is_trip user a = a.actor_user_id == user && is_trip_action a.action a.target_resource

abbrev pub trips : ℕ → List AuditEvent → ℕ
trips user log = count (is_trip user) log

-- Below the limit, and no trip is audited.
abbrev pub IsClosed : ℕ → Preference → List AuditEvent → Type 0
IsClosed user p log =
    (p.circuit_broken ≡ false) × (p.consecutive_failures < breaker_limit) × (trips user log ≡ 0)

-- At the limit, the webhook is disabled, and the trip is audited once.
abbrev pub IsOpen : ℕ → Preference → List AuditEvent → Type 0
IsOpen user p log =
    (p.circuit_broken ≡ true)
    × (breaker_limit ≤ p.consecutive_failures)
    × (p.webhook_enabled ≡ false)
    × (is_none p.circuit_broken_at ≡ false)
    × (any (recorded_since user (get_or p.circuit_broken_at 0)) log ≡ true)
    × (trips user log ≡ 1)

abbrev pub IsSound : ℕ → Preference → List AuditEvent → Type 0
IsSound user p log = IsClosed user p log ⊎ IsOpen user p log

-- The breaker of a user who has preferences is sound.
abbrev pub Breaker : ℕ → Store → Type 0
Breaker user s =
    (p : Preference) × (row_of user_of user s.preferences ≡ some p) × IsSound user p s.audit_events

no_record :
    (user t : ℕ) (log : List AuditEvent)
    → trips user log ≡ 0
    → any (recorded_since user t) log ≡ false
no_record user t [] h = refl
no_record user t (a ∷ log) h = ground (arith, no_record user t log)

-- The new audit events of other users or of other kinds change nothing for this user.
foreign_audit :
    (user : ℕ) (p : Preference) (log : List AuditEvent) (a : AuditEvent)
    → is_trip user a ≡ false
    → IsSound user p log
    → IsSound user p (log ++ a ∷ [])
foreign_audit user p log a h (inl (b, f, n)) =
    inl (b, f, ground (arith, count-snoc (is_trip user) log a))
foreign_audit user p log a h (inr (b, f, w, t, r, n)) =
    inr (
      b,
      f,
      w,
      t,
      any-append-left _ log (a ∷ []) r,
      ground (arith, count-snoc (is_trip user) log a),
    )

audit_ssrf-Breaker :
    (user now other : ℕ) (is_ssrf : Bool) (s : Store)
    → Breaker user s
    → Breaker user (audit_ssrf now other is_ssrf s)
unfolding audit_ssrf ssrf_audit
audit_ssrf-Breaker user now other false s b = b
audit_ssrf-Breaker user now other true s (p, row, sound) =
    (p, row, foreign_audit user p s.audit_events (ssrf_audit other now) (ground arith) sound)

-- A failure of the user's own: the count grows, and at the limit the breaker trips.
own_failure :
    (user now : ℕ) (p : Preference) (s : Store)
    → p.user_id ≡ user
    → row_of user_of user s.preferences ≡ some (counted now p)
    → IsSound user p s.audit_events
    → Breaker user (announce now user (some (counted now p)) s)
unfolding announce trip_audit
own_failure user now p s u row (inl (b, f, n)) =
    elim (Bool-cases (leb breaker_limit (p.consecutive_failures + 1))) [
      | inl e ↦ (
        counted now p,
        ground (arith, no_record user now s.audit_events),
        inr (
            ground (
              arith,
              no_record user now s.audit_events,
              count-snoc (is_trip user) s.audit_events (trip_audit user now (counted now p)),
              any-snoc (recorded_since user now) s.audit_events
                  (trip_audit user now (counted now p)),
            )),
      )
      | inr e ↦ (counted now p, ground arith, inl (ground arith))
    ]
own_failure user now p s u row (inr (b, f, w, t, r, n)) =
    (counted now p, ground arith, inr (ground arith))

-- Another user's failure leaves this user's breaker as it is.
other_failure :
    (user now other : ℕ) (q : Option Preference) (s : Store)
    → other ≢ user
    → Breaker user s
    → Breaker user (announce now other q s)
unfolding announce trip_audit
other_failure user now other none s ne b = b
other_failure user now other (some q) s ne (p, row, sound) = (
  p,
  ground arith,
  elim (Bool-cases (
      leb breaker_limit q.consecutive_failures
      && (q.circuit_broken
          && not (any (recorded_since other (get_or q.circuit_broken_at now)) s.audit_events)))) [
            | inl e ↦ rw e (
                foreign_audit user p s.audit_events
                  (trip_audit other (get_or q.circuit_broken_at now) q) (ground arith) sound)
            | inr e ↦ rw e sound
          ],
)

counted_row :
    (user now other : ℕ) (p : Preference) (ps : List Preference)
    → row_of user_of user ps ≡ some p
    → row_of user_of user (update (λ q. q.user_id == other) (counted now) ps)
      ≡ some (if p.user_id == other then counted now p else p)
counted_row user now other p ps row =
    row_of-update user_of (λ q. q.user_id == other) (counted now) (λ q. refl) user ps p row

same_failure :
    (user now other : ℕ) (p : Preference) (s : Store)
    → other ≡ user
    → p.user_id ≡ user
    → row_of user_of user s.preferences ≡ some (counted now p)
    → IsSound user p s.audit_events
    → Breaker user (announce now other (row_of user_of other s.preferences) s)
same_failure user now other p s same u row sound =
    subst (λ o. Breaker user (announce now o (row_of user_of o s.preferences) s)) (sym same)
      (subst (λ q. Breaker user (announce now user q s)) (sym row)
        (own_failure user now p s u row sound))

-- Every failure, of any user, keeps every breaker sound.
pub increment_circuit_breaker-Breaker :
    (user now other : ℕ) (is_ssrf : Bool) (s : Store)
    → Breaker user s
    → Breaker user (increment_circuit_breaker now other is_ssrf s)
unfolding increment_circuit_breaker
increment_circuit_breaker-Breaker user now other is_ssrf s (p, row, sound) =
    let u = row_of-key user_of user s.preferences p row in
    let row' = counted_row user now other p s.preferences row in
    let s' : Store = record s {
      preferences = update (λ q. q.user_id == other) (counted now) s.preferences;
    } in
    audit_ssrf-Breaker user now other is_ssrf _ (elim (ℕ_discrete other user) [
      | yes same ↦ same_failure user now other p s' same u (ground arith) sound
      | no ne ↦
          other_failure user now other (row_of user_of other s'.preferences) s' ne
            (p, ground arith, sound)
    ])

-- A delivery resets the counter of a closed breaker, and keeps every breaker sound.
pub reset_counter-Breaker :
    (user other : ℕ) (s : Store) → Breaker user s → Breaker user (reset_counter other s)
unfolding reset_counter
reset_counter-Breaker user other s (p, row, sound) =
    let row' =
      row_of-update user_of (λ (q : Preference). q.user_id == other && not q.circuit_broken)
        (λ q. record q { consecutive_failures = 0 }) (λ q. refl) user s.preferences p row in
    elim (Bool-cases (p.user_id == other && not p.circuit_broken)) [
      | inl e ↦ (record p { consecutive_failures = 0 }, rw e at row', ground arith)
      | inr e ↦ (p, rw e at row', sound)
    ]
