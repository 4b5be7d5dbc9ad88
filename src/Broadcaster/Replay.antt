-- ===== src/Broadcaster/Replay.antt =====
-- The durable replay (get_replay_events): which rows of soc_event_stream a client gets again.
use ai_cyber_security_suite.Prelude.{
  ℕ, ◌-◌, Bool, true, false, ◌||◌, ◌&&◌, Option, none, some, List, [], ◌∷◌, map, if◌then◌else◌, ltb,
  ◌==◌, keep, select, min,
}
use ai_cyber_security_suite.Broadcaster.Envelope.{Envelope}

abbrev pub in_scope : ℕ → Bool → Envelope → Bool
in_scope tenant is_admin e = is_admin || e.tenant_id == tenant

-- `SELECT min(cursor_id)`
abbrev pub min_cursor : List Envelope → Option ℕ
min_cursor [] = none
min_cursor (e ∷ es) = elim (min_cursor es) [
  | none ↦ some e.cursor_id
  | some m ↦ some (min e.cursor_id m)
]

-- `last_event_id < min_cursor - 1`, where the oldest cursor is at least 1.
abbrev pub has_expired : ℕ → Option ℕ → Bool
has_expired last none = false
has_expired last (some m) = ltb last (m - 1)

abbrev pub missed : ℕ → Bool → ℕ → Envelope → Bool
missed tenant is_admin last e = ltb last e.cursor_id && in_scope tenant is_admin e

-- The stored rows are envelopes; `sanitize` is applied for admins.
unfoldable pub get_replay_events :
    (Envelope → Envelope) → ℕ → ℕ → ℕ → Bool → List Envelope → List Envelope × Bool
get_replay_events sanitize tenant last limit is_admin rows =
    if has_expired last (min_cursor (keep (in_scope tenant is_admin) rows)) then ([], true) else (
      map (λ e. if is_admin then sanitize e else e)
          (select (missed tenant is_admin last) (λ e. e.cursor_id) limit rows),
      false,
    )
