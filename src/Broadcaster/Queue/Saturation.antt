-- ===== src/Broadcaster/Queue/Saturation.antt =====
-- What a full queue gives up: an evictable item, the incoming event, or a critical event.
use ai_cyber_security_suite.Prelude.{
  lt→ltb, ltb→lt, ℕ, suc, ◌-◌, ◌≤◌, ◌<◌, ◌≡◌, ◌⊎◌, ◌∙◌, ap, sym, inl, inr, true, false, List, [],
  ◌∷◌, ◌++◌, refl, arith, ltb, length, length-append, keep, keep-append, any, Bool-cases, All,
  All-mono, All-select, All-map,
}
use mathlib.Core.List.{append-nil}
use ai_cyber_security_suite.Broadcaster.Envelope.{Envelope, is_critical_event}
use ai_cyber_security_suite.Broadcaster.Queue.{
  Item, event, overflow, evictable, evict, init, admit_full, enqueue,
}
use ai_cyber_security_suite.Broadcaster.Queue.Eviction.{protected, refill_lem, evict_cases}
use ai_cyber_security_suite.Broadcaster.Replay.{
  missed, get_replay_events, has_expired, min_cursor, in_scope,
}

keeps_with_room :
    (n : ℕ) (e : Envelope) (q : List Item)
    → length q ≤ n
    → (length q < n) ⊎ (any evictable q ≡ true)
    → keep protected (enqueue n e q) ≡ keep protected (q ++ event e ∷ [])
unfolding enqueue admit_full
keeps_with_room n e q h (inl room) = rw (lt→ltb (length q) n room)
keeps_with_room n e q h (inr some_evictable) = elim (Bool-cases (ltb (length q) n)) [
  | inl room ↦ rw room
  | inr full ↦ elim (evict_cases q) [
    | inl (none_left, same) ↦ cc
    | inr (_, done, shorter, kept) ↦
        rw
          (
            full,
            done,
            refill_lem n [] (evict false q).0 (omega arith),
            lt→ltb (length (evict false q).0) n (omega arith),
          )
          (keep-append protected (evict false q).0 (event e ∷ [])
            ∙ ap (λ l. l ++ keep protected (event e ∷ [])) kept
            ∙ sym (keep-append protected q (event e ∷ [])))
  ]
]

-- A full queue that holds only critical events and control items stays as it is when an event that
-- is not critical comes in.
pub enqueue_drops :
    (n : ℕ) (e : Envelope) (q : List Item)
    → length q ≡ n
    → any evictable q ≡ false
    → is_critical_event e ≡ false
    → enqueue n e q ≡ q
unfolding enqueue admit_full
enqueue_drops n e q h none_evictable plain = elim (evict_cases q) [
  | inl (_, same) ↦ elim (Bool-cases (ltb (length q) n)) [
    | inl room ↦ absurd (omega (arith, ltb→lt (length q) n room))
    | inr full ↦ rw (full, same, plain) (refill_lem n [] q (omega arith))
  ]
  | inr (some_left, _, _, _) ↦ cc
]

unprotected : (e : Envelope) → is_critical_event e ≡ false → keep protected (event e ∷ []) ≡ []
unprotected e h = rw h refl

-- A queue within its size takes in an event without losing or reordering any critical event or control
-- item, unless it is full, holds only those, and the event is critical.
pub enqueue_keeps-protected :
    (n : ℕ) (e : Envelope) (q : List Item)
    → length q ≤ n
    → ¬ ((length q ≡ n) × (any evictable q ≡ false) × (is_critical_event e ≡ true))
    → keep protected (enqueue n e q) ≡ keep protected (q ++ event e ∷ [])
enqueue_keeps-protected n e q h no_loss = elim (Bool-cases (any evictable q)) [
  | inl some_evictable ↦ keeps_with_room n e q h (inr some_evictable)
  | inr none_evictable ↦ elim (Bool-cases (ltb (length q) n)) [
    | inl room ↦ keeps_with_room n e q h (inl (ltb→lt (length q) n room))
    | inr full ↦
        let size : length q ≡ n = ground arith in
        elim (Bool-cases (is_critical_event e)) [
          | inl critical_one ↦ absurd (no_loss (size, none_evictable, critical_one))
          | inr plain ↦
              ap (keep protected) (enqueue_drops n e q size none_evictable plain)
              ∙ sym (
                  keep-append protected q (event e ∷ [])
                  ∙ ap (λ l. keep protected q ++ l) (unprotected e plain)
                  ∙ append-nil (keep protected q))
        ]
  ]
]

init-snoc : (xs : List Item) (x : Item) → init (xs ++ x ∷ []) ≡ xs
init-snoc [] x = refl
init-snoc (y ∷ []) x = refl
init-snoc (y ∷ z ∷ zs) x = ap (◌∷◌ y) (init-snoc (z ∷ zs) x)

overflowed :
    (n : ℕ) (e x : Envelope) (xs : List Item)
    → suc (length xs) ≡ n
    → any evictable (xs ++ event x ∷ []) ≡ false
    → is_critical_event e ≡ true
    → enqueue n e (xs ++ event x ∷ []) ≡ xs ++ overflow e.cursor_id ∷ []
unfolding enqueue admit_full
overflowed n e x xs h none_evictable crit = elim (evict_cases (xs ++ event x ∷ [])) [
  | inl (_, same) ↦ elim (Bool-cases (ltb (length (xs ++ event x ∷ [])) n)) [
    | inl room ↦ absurd (
        omega (arith, ltb→lt (length (xs ++ event x ∷ [])) n room, length-append xs (event x ∷ [])))
    | inr full ↦ rw (
      full,
      same,
      crit,
      init-snoc xs (event x),
      refill_lem n [] xs (omega arith),
      lt→ltb (length xs) n (omega arith),
    )
  ]
  | inr (some_left, _, _, _) ↦ cc
]

-- A replay for a tenant that is no admin returns events of that tenant after the cursor, and no
-- others.
pub get_replay_events_scope :
    (sanitize : Envelope → Envelope) (tenant last limit : ℕ) (rows : List Envelope)
    → All
        (λ r. (last < r.cursor_id) × (r.tenant_id ≡ tenant))
        (get_replay_events sanitize tenant last limit false rows).0
unfolding get_replay_events
get_replay_events_scope sanitize tenant last limit rows =
    elim (Bool-cases (has_expired last (min_cursor (keep (in_scope tenant false) rows)))) [
      | inl e ↦ rw e tt
      | inr e ↦ rw e (
          All-map _ _ _ (
            All-mono _ _ (λ (r : Envelope) m. (ground arith, ground arith)) _
              (All-select (missed tenant false last) (λ r. r.cursor_id) limit rows)))
    ]

-- A full queue of critical events and control items that ends in a critical event loses that event
-- to a critical event with a later cursor: the sentinel takes its place, and a replay from the
-- sentinel's last_delivered_id, the later cursor minus one, returns no event with the lost event's
-- cursor.
pub enqueue_overflow_loses :
    (n : ℕ) (e x : Envelope) (xs : List Item) (sanitize : Envelope → Envelope) (limit : ℕ)
    (rows : List Envelope)
    → suc (length xs) ≡ n
    → any evictable (xs ++ event x ∷ []) ≡ false
    → is_critical_event e ≡ true
    → x.cursor_id < e.cursor_id
    → (enqueue n e (xs ++ event x ∷ []) ≡ xs ++ overflow e.cursor_id ∷ [])
      × All
          (λ r. x.cursor_id < r.cursor_id)
          (get_replay_events sanitize e.tenant_id (e.cursor_id - 1) limit false rows).0
enqueue_overflow_loses n e x xs sanitize limit rows h none_evictable crit later = (
  overflowed n e x xs h none_evictable crit,
  All-mono _ _ (λ r s. omega (arith, s.0)) _
      (get_replay_events_scope sanitize e.tenant_id (e.cursor_id - 1) limit rows),
)
