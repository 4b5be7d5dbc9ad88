-- ===== src/Broadcaster/Queue.antt =====
-- The bounded queue of one client and its eviction policy (_enqueue_to_stream_queue). A queue is the
-- list of its items, oldest first; `n` is its maxsize.
pub mod Eviction
pub mod Saturation
use ai_cyber_security_suite.Prelude.{
  ℕ, Bool, true, false, not, ◌&&◌, List, [], ◌∷◌, ◌++◌, if◌then◌else◌, ltb, length,
}
use ai_cyber_security_suite.Broadcaster.Envelope.{Envelope, is_critical_event}

-- `overflow c` is the sentinel with last_delivered_id = c - 1; `control` is any other control item.
pub data Item : Type 0 where
  event : Envelope → Item
  overflow : ℕ → Item
  control : ℕ → Item

-- `put_nowait` with QueueFull suppressed.
abbrev pub put : ℕ → List Item → Item → List Item
put n q it = if ltb (length q) n then q ++ it ∷ [] else q

abbrev pub refill : ℕ → List Item → List Item → List Item
refill n q [] = q
refill n q (it ∷ items) = refill n (put n q it) items

-- `isinstance(it, SSEEventEnvelope) and not self._is_critical_event(it)`
abbrev pub evictable : Item → Bool
evictable (event e) = not (is_critical_event e)
evictable (overflow c) = false
evictable (control c) = false

-- The loop that drops the oldest evictable item: what is kept, and whether one was dropped.
unfoldable pub evict : Bool → List Item → List Item × Bool
evict evicted [] = ([], evicted)
evict evicted (it ∷ items) =
    let drop = not evicted && evictable it in
    let (kept, done) = evict (if drop then true else evicted) items in
    (if drop then kept else it ∷ kept, done)

-- `items[:-1]`
abbrev pub init : List Item → List Item
init [] = []
init (x ∷ []) = []
init (x ∷ y ∷ ys) = x ∷ init (y ∷ ys)

-- A full queue, drained into `items`.
unfoldable pub admit_full : ℕ → Envelope → List Item → List Item
unfolding evict
admit_full n e items =
    let (kept, evicted) = evict false items in
    if evicted
    then put n (refill n [] kept) (event e)
    else if not (is_critical_event e)
    then refill n [] items
    else put n (refill n [] (init items)) (overflow e.cursor_id)

unfoldable pub enqueue : ℕ → Envelope → List Item → List Item
enqueue n e q = if ltb (length q) n then q ++ event e ∷ [] else admit_full n e q
