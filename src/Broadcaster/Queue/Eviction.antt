-- ===== src/Broadcaster/Queue/Eviction.antt =====
-- What the eviction policy keeps: the bound, the order, and every item that may not be evicted.
use ai_cyber_security_suite.Prelude.{
  lt→ltb, ltb→lt, ℕ, suc, ◌+◌, ◌≤◌, ◌≡◌, ◌⊎◌, ◌∙◌, ap, sym, inl, inr, Bool, true, false, not, List,
  [], ◌∷◌, ◌++◌, refl, arith, ltb, length, length-append, keep, any, Bool-cases,
}
use mathlib.Core.List.{append-nil, append_assoc}
use ai_cyber_security_suite.Broadcaster.Envelope.{Envelope, is_critical_event}
use ai_cyber_security_suite.Broadcaster.Queue.{
  Item, event, overflow, put, refill, evictable, evict, init, admit_full, enqueue,
}

-- Items that may not be evicted: critical events and control items.
abbrev pub protected : Item → Bool
protected it = not (evictable it)

pub refill_lem :
    (n : ℕ) (q items : List Item) → length q + length items ≤ n → refill n q items ≡ q ++ items
refill_lem n q [] h = sym (append-nil q)
refill_lem n q (it ∷ items) h = rw (lt→ltb (length q) n (omega arith)) (
    refill_lem n (q ++ it ∷ []) items (omega (arith, length-append q (it ∷ [])))
    ∙ append_assoc q (it ∷ []) items)

evict_done : (items : List Item) → evict true items ≡ (items, true)
unfolding evict
evict_done [] = refl
evict_done (it ∷ items) = ground (arith, evict_done items)

-- Either nothing may be evicted and all is kept, or one item less is kept and no protected one is lost.
pub evict_cases :
    (items : List Item)
    → ((any evictable items ≡ false) × (evict false items ≡ (items, false)))
      ⊎ ((any evictable items ≡ true)
          × ((evict false items).1 ≡ true)
          × (length (evict false items).0 + 1 ≡ length items)
          × (keep protected (evict false items).0 ≡ keep protected items))
unfolding evict
evict_cases [] = inl (refl, refl)
evict_cases (it ∷ items) = elim (Bool-cases (evictable it)) [
  | inl e ↦ inr (
    ground arith,
    ground (arith, evict_done items),
    ground (arith, evict_done items),
    ground (arith, evict_done items),
  )
  | inr e ↦ elim (evict_cases items) [
    | inl (none_left, same) ↦ inl (ground arith, ground arith)
    | inr (some_left, done, shorter, kept) ↦
        inr (ground arith, ground arith, ground arith, ground arith)
  ]
]

pub length-init : (x : Item) (xs : List Item) → length (init (x ∷ xs)) ≡ length xs
length-init x [] = refl
length-init x (y ∷ ys) = ap suc (length-init y ys)

length-put-le : (n : ℕ) (q : List Item) (it : Item) → length q ≤ n → length (put n q it) ≤ n
length-put-le n q it h = ground (arith, length-append q (it ∷ []))

length-refill-le : (n : ℕ) (q items : List Item) → length q ≤ n → length (refill n q items) ≤ n
length-refill-le n q [] h = h
length-refill-le n q (it ∷ items) h = length-refill-le n (put n q it) items (length-put-le n q it h)

-- A queue that is not longer than its size is not longer than it after any event.
pub length-enqueue-le :
    (n : ℕ) (e : Envelope) (q : List Item) → length q ≤ n → length (enqueue n e q) ≤ n
unfolding enqueue admit_full
length-enqueue-le n e q h = elim (Bool-cases (ltb (length q) n)) [
  | inl room ↦ rw room (omega (arith, length-append q (event e ∷ []), ltb→lt (length q) n room))
  | inr full ↦ rw full (elim (Bool-cases (evict false q).1) [
    | inl y ↦
        rw y (length-put-le n _ (event e) (length-refill-le n [] (evict false q).0 (omega arith)))
    | inr y ↦ rw y (elim (Bool-cases (is_critical_event e)) [
      | inl c ↦
          rw c (
            length-put-le n _ (overflow e.cursor_id) (length-refill-le n [] (init q) (omega arith)))
      | inr c ↦ rw c (length-refill-le n [] q (omega arith))
    ])
  ])
]
