-- ===== src/Targets/Quota.antt =====
-- The quota of active targets, which only registrations test.
use ai_cyber_security_suite.Prelude.{
  ℕ, ◌+◌, ◌≤◌, ◌<◌, ◌≡◌, ◌≢◌, refl, inl, inr, Bool, true, false, not, ◌||◌, some, List, [], ◌∷◌,
  ◌++◌, leb, leb→le, ◌==◌, ==_iff, find, keep, keep-append, length-append, update, Distinct, row_of,
  row_of-key, some_inj, All, Bool-cases, if-cases, arith,
}
use ai_cyber_security_suite.Alerts.Model.{User}
use ai_cyber_security_suite.Scheduler.State.{MonitoringTarget}
use ai_cyber_security_suite.Targets.{
  Target, Registry, limit_exceeded, ssrf_refused, TargetReply, target_is, refused,
  get_user_target_quota, is_active_of, active_count, Registration, new_target, register_target,
  reaches, get_target_by_uuid, activated, resume_target,
}

-- What a registration answers, and what it leaves.
abbrev pub Registered : User → Registration → Registry → Registry × TargetReply → Type 0
Registered u d s (t, target_is g) =
    (d.url_is_safe ≡ true)
    × (g ≡ new_target u d)
    × (t.targets ≡ s.targets ++ g ∷ [])
    × (active_count u.ident t.targets ≡ active_count u.ident s.targets + 1)
    × (active_count u.ident t.targets ≤ get_user_target_quota u)
Registered u d s (t, refused ssrf_refused) = (t ≡ s) × (d.url_is_safe ≡ false)
Registered u d s (t, refused limit_exceeded) =
    (t ≡ s) × (get_user_target_quota u ≤ active_count u.ident s.targets)
Registered u d s (t, refused _) = ⊥

active_count-snoc :
    (u : User) (d : Registration) (ts : List Target)
    → active_count u.ident (ts ++ new_target u d ∷ []) ≡ active_count u.ident ts + 1
active_count-snoc u d ts =
    rw
      (keep-append (is_active_of u.ident) ts (new_target u d ∷ []), (==_iff u.ident u.ident).1 refl)
      (length-append (keep (is_active_of u.ident) ts) (new_target u d ∷ []))

-- A registration makes exactly one more active target of the user, and never one beyond the quota of the
-- user's role; it is refused, and nothing is written, only for an unsafe URL or at the quota.
pub register_target-Registered :
    (u : User) (d : Registration) (s : Registry) → Registered u d s (register_target u d s)
unfolding register_target
register_target-Registered u d s =
    if-cases (Registered u d s) (not d.url_is_safe) _ _ (λ unsafe. (refl, ground arith))
      (λ safe.
        if-cases (Registered u d s) (leb (get_user_target_quota u) (active_count u.ident s.targets))
          _ _ (λ full. (refl, leb→le _ _ full))
          (λ room.
            let more = active_count-snoc u d s.targets in
            (ground arith, refl, refl, more, rw more (ground arith))))

abbrev pub uuid_of : Target → ℕ
uuid_of g = g.target_uuid

abbrev with_row : MonitoringTarget → Target → Target
with_row r x = record x { row = r }

find-reaches :
    (u : User) (uuid : ℕ) (ts : List Target) (g : Target)
    → row_of uuid_of uuid ts ≡ some g
    → reaches u uuid g ≡ true
    → find (reaches u uuid) ts ≡ some g
find-reaches u uuid [] g h k = cc
find-reaches u uuid (x ∷ ts) g h k = elim (Bool-cases (x.target_uuid == uuid)) [
  | inl e ↦ let same : x ≡ g = some_inj.0 (rw e at h) in rw (same, k) refl
  | inr e ↦ rw e (find-reaches u uuid ts g (rw e at h) k)
]

update_none :
    (k : ℕ) (r : MonitoringTarget) (ts : List Target)
    → All (λ x. k ≢ x.target_uuid) ts
    → update (λ x. x.target_uuid == k) (with_row r) ts ≡ ts
update_none k r [] h = refl
update_none k r (x ∷ ts) h =
    let other : (x.target_uuid == k) ≡ false = ground (arith, h.0) in
    rw (other, update_none k r ts h.1) refl

-- One inactive row of the user becomes active.
one_more :
    (n k : ℕ) (r : MonitoringTarget) (ts : List Target) (g : Target)
    → Distinct uuid_of ts
    → row_of uuid_of k ts ≡ some g
    → is_active_of n g ≡ false
    → is_active_of n (with_row r g) ≡ true
    → active_count n (update (λ x. x.target_uuid == k) (with_row r) ts) ≡ active_count n ts + 1
one_more n k r [] g d h off on = cc
one_more n k r (x ∷ ts) g d h off on = elim (Bool-cases (x.target_uuid == k)) [
  | inl e ↦
      let same : x ≡ g = some_inj.0 (rw e at h) in
      let rest = update_none k r ts (rw ((==_iff x.target_uuid k).0 e) at d.0) in
      let off_x : is_active_of n x ≡ false = rw same off in rw (e, rest, on, off_x) (omega arith)
  | inr e ↦
      let ih = one_more n k r ts g d.1 (rw e at h) off on in
      elim (Bool-cases (is_active_of n x)) [
        | inl y ↦ rw (e, y) (omega (arith, ih))
        | inr no_way ↦ rw (e, no_way) ih
      ]
]

or_right : (a b : Bool) → b ≡ true → a || b ≡ true
or_right a b h = ground arith

-- A paused target of a user whose active targets are at the quota, or beyond it, can be resumed, and
-- there is one more of them then. The uuids are distinct, and the target has failed fewer than five
-- times in a row.
pub resume_target_exceeds :
    (now : ℕ) (u : User) (uuid : ℕ) (s : Registry) (g : Target)
    → Distinct uuid_of s.targets
    → row_of uuid_of uuid s.targets ≡ some g
    → g.row.user_id ≡ u.ident
    → g.row.is_active ≡ false
    → g.row.consecutive_failures < 5
    → get_user_target_quota u ≤ active_count u.ident s.targets
    → get_user_target_quota u < active_count u.ident (resume_target now u uuid s).0.targets
unfolding resume_target get_target_by_uuid
resume_target_exceeds now u uuid s g d found mine off few full =
    let key : g.target_uuid ≡ uuid = row_of-key uuid_of uuid s.targets g found in
    let seen : reaches u uuid g ≡ true =
      rw ((==_iff g.target_uuid uuid).1 key)
        (or_right u.is_admin _ ((==_iff g.row.user_id u.ident).1 mine)) in
    let reach = find-reaches u uuid s.targets g found seen in
    let fit : leb 5 g.row.consecutive_failures ≡ false = ground arith in
    let more =
      one_more u.ident uuid (activated now g.row) s.targets g d found (rw (off) (ground arith))
        (rw ((==_iff g.row.user_id u.ident).1 mine) refl) in
    rw (reach, fit, key, more) (omega (arith, full))
