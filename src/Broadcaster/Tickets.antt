-- ===== src/Broadcaster/Tickets.antt =====
-- Stream tickets: create_stream_ticket and validate_and_burn_stream_ticket. A ticket is a number.
use ai_cyber_security_suite.Prelude.{
  ℕ, ◌+◌, ◌*◌, ◌^◌, ◌≤◌, ◌≡◌, ◌⊎◌, Bool, true, false, not, ◌&&◌, Option, none, some, List, [], ◌∷◌,
  if◌then◌else◌, leb, ltb, ◌==◌, any, find, keep,
}

-- The payload of a ticket, and the time from which it is no longer valid.
pub record Ticket : Type 0 where
  pub name : ℕ
  pub user_id : ℕ
  pub expires_at : ℕ

-- What Redis holds, and `_in_memory_tickets`.
pub record Tickets : Type 0 where
  pub shared : List Ticket
  pub in_memory : List Ticket

-- How Redis answers a call: there is no client, it works, it has no GETDEL, or it raises.
pub data Redis : Type 0 where
  absent works no_getdel raises : Redis

abbrev pub ticket_ttl : ℕ
ticket_ttl = 30 * 10 ^ 6

abbrev pub ticket_of : ℕ → ℕ → ℕ → Ticket
ticket_of now user name = record { name = name; user_id = user; expires_at = now + ticket_ttl }

abbrev pub in_redis : Redis → Bool
in_redis works = true
in_redis no_getdel = true
in_redis _ = false

unfoldable pub create_stream_ticket : Redis → ℕ → ℕ → ℕ → Tickets → Tickets
create_stream_ticket r now user name s =
    if in_redis r
    then record s { shared = ticket_of now user name ∷ s.shared }
    else record s { in_memory = ticket_of now user name ∷ s.in_memory }

abbrev pub is_named : ℕ → Ticket → Bool
is_named name t = t.name == name

abbrev pub without : ℕ → List Ticket → List Ticket
without name ts = keep (λ t. not (is_named name t)) ts

-- A key of Redis is gone when its time to live is over.
abbrev pub is_live : ℕ → ℕ → Ticket → Bool
is_live now name t = is_named name t && ltb now t.expires_at

-- `_in_memory_tickets.pop(ticket, None)` and the test of its time.
abbrev pub pop_found : ℕ → ℕ → Tickets → Option Ticket → Tickets × Option ℕ
pop_found now name s none = (s, none)
pop_found now name s (some t) = (
  record s { in_memory = without name s.in_memory },
  if leb now t.expires_at then some t.user_id else none,
)

abbrev pub pop_ticket : ℕ → ℕ → Tickets → Tickets × Option ℕ
pop_ticket now name s = pop_found now name s (find (is_named name) s.in_memory)

-- GETDEL, or without it GET and then DELETE, in one step: uses of a ticket are taken one after the other.
abbrev pub getdel_found : ℕ → ℕ → Tickets → Option Ticket → Tickets × Option ℕ
getdel_found now name s none = pop_ticket now name s
getdel_found now name s (some t) = (record s { shared = without name s.shared }, some t.user_id)

-- `is_ticket` is whether the text begins with "st_".
unfoldable pub validate_and_burn_stream_ticket :
    (ℕ → Bool) → Redis → ℕ → ℕ → Tickets → Tickets × Option ℕ
validate_and_burn_stream_ticket is_ticket r now name s =
    if not (is_ticket name)
    then (s, none)
    else if in_redis r
    then getdel_found now name s (find (is_live now name) s.shared)
    else pop_ticket now name s

-- No store has the ticket.
abbrev pub IsGone : ℕ → Tickets → Type 0
IsGone name s = (any (is_named name) s.shared ≡ false) × (any (is_named name) s.in_memory ≡ false)

-- At most one of the stores has the ticket.
abbrev pub IsSingle : ℕ → Tickets → Type 0
IsSingle name s = (any (is_named name) s.shared ≡ false) ⊎ (any (is_named name) s.in_memory ≡ false)

-- A use of a ticket.
pub record Use : Type 0 where
  pub redis : Redis
  pub now : ℕ
  pub name : ℕ

-- A ticket of a user that has not expired.
abbrev pub Grants : ℕ → ℕ → ℕ → Ticket → Type 0
Grants now name user t = (t.name ≡ name) × (t.user_id ≡ user) × (now ≤ t.expires_at)

-- What a use of a ticket that names a user has found and leaves.
abbrev pub Burned : ℕ → ℕ → ℕ → Tickets → Type 0
Burned now name user after = IsGone name after × ((t : Ticket) × Grants now name user t)

module _ (is_ticket : ℕ → Bool) where
  abbrev pub later_uses : List Use → Tickets → List (ℕ × Option ℕ)
  later_uses [] s = []
  later_uses (a ∷ us) s =
      let r = validate_and_burn_stream_ticket is_ticket a.redis a.now a.name s in
      (a.name, r.1) ∷ later_uses us r.0
