-- ===== src/Notifications/Unread.antt =====
-- The unread counts that the event stream reports.
use ai_cyber_security_suite.Prelude.{
  ℕ, ◌+◌, ◌-◌, ◌≡◌, ◌≢◌, refl, inl, inr, true, false, some, some_inj, List, [], ◌∷◌, ◌++◌, ◌==◌,
  ==_iff, find, keep, length, update, All, Distinct, row_of, row_of-key, Bool-cases, arith,
}
use ai_cyber_security_suite.Notifications.{
  Notice, Mailroom, is_unread_of, get_unread_count, is_owned, read, count_event, mark_as_read,
}

abbrev pub uuid_of : Notice → ℕ
uuid_of n = n.notification_uuid

unmarked :
    (k : ℕ) (ns : List Notice)
    → All (λ x. k ≢ x.notification_uuid) ns
    → update (λ x. x.notification_uuid == k) read ns ≡ ns
unmarked k [] h = refl
unmarked k (x ∷ ns) h =
    let other : (x.notification_uuid == k) ≡ false = ground (arith, h.0) in
    rw (other, unmarked k ns h.1) refl

find-owned :
    (user uuid : ℕ) (ns : List Notice) (n : Notice)
    → row_of uuid_of uuid ns ≡ some n
    → is_owned user uuid n ≡ true
    → find (is_owned user uuid) ns ≡ some n
find-owned user uuid [] n h k = cc
find-owned user uuid (x ∷ ns) n h k = elim (Bool-cases (x.notification_uuid == uuid)) [
  | inl e ↦ let same : x ≡ n = some_inj.0 (rw e at h) in rw (same, k) refl
  | inr e ↦ rw e (find-owned user uuid ns n (rw e at h) k)
]

-- Marking one unread notice of the user.
one_less :
    (user k : ℕ) (ns : List Notice) (n : Notice)
    → Distinct uuid_of ns
    → row_of uuid_of k ns ≡ some n
    → is_unread_of user n ≡ true
    → length (keep (is_unread_of user) ns)
      ≡ length (keep (is_unread_of user) (update (λ x. x.notification_uuid == k) read ns)) + 1
one_less user k [] n d h on = cc
one_less user k (x ∷ ns) n d h on = elim (Bool-cases (x.notification_uuid == k)) [
  | inl e ↦
      let same : x ≡ n = some_inj.0 (rw e at h) in
      let rest = unmarked k ns (rw ((==_iff x.notification_uuid k).0 e) at d.0) in
      let on_x : is_unread_of user x ≡ true = rw same on in
      let off_x : is_unread_of user (read x) ≡ false = ground arith in
      rw (e, rest, on_x, off_x) (omega arith)
  | inr e ↦
      let ih = one_less user k ns n d.1 (rw e at h) on in
      elim (Bool-cases (is_unread_of user x)) [
        | inl y ↦ rw (e, y) (omega (arith, ih))
        | inr no_way ↦ rw (e, no_way) ih
      ]
]

-- A user who marks an unread notification of the user's own as read has one unread one less, and the
-- event that is streamed then carries the number that are left. The uuids are distinct.
pub mark_as_read_counts :
    (user uuid : ℕ) (m : Mailroom) (n : Notice)
    → Distinct uuid_of m.notices
    → row_of uuid_of uuid m.notices ≡ some n
    → n.user_id ≡ user
    → n.is_read ≡ false
    → (v : Mailroom) × (mark_as_read user uuid m ≡ some v)
      × (get_unread_count user m.notices ≡ get_unread_count user v.notices + 1)
      × (v.events ≡ m.events ++ count_event user (get_unread_count user v.notices) ∷ [])
unfolding mark_as_read get_unread_count
mark_as_read_counts user uuid m n d found mine unread =
    let key : n.notification_uuid ≡ uuid = row_of-key uuid_of uuid m.notices n found in
    let own : is_owned user uuid n ≡ true =
      rw ((==_iff n.notification_uuid uuid).1 key) ((==_iff n.user_id user).1 mine) in
    let on : is_unread_of user n ≡ true = rw ((==_iff n.user_id user).1 mine, unread) refl in
    let less = one_less user uuid m.notices n d found on in
    let left =
      length
        (keep (is_unread_of user) (update (λ x. x.notification_uuid == uuid) read m.notices)) in
    let count : get_unread_count user m.notices - 1 ≡ left = omega (arith, less) in
    (
      record m {
        notices = update (λ x. x.notification_uuid == uuid) read m.notices;
        events = m.events ++ count_event user left ∷ [];
      },
      rw (find-owned user uuid m.notices n found own, unread, key, count) refl,
      less,
      refl,
    )
