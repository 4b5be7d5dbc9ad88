-- ===== src/Broadcaster/Listeners.antt =====
-- The listeners of a pod: register_listener and unregister_listener with their limits. A queue is a
-- number; the subscriptions to Redis channels that follow are left out.
pub mod Limits
mod Examples
use ai_cyber_security_suite.Prelude.{
  ℕ, ◌+◌, ◌-◌, Bool, true, false, not, ◌&&◌, Option, none, some, List, [], ◌∷◌, if◌then◌else◌, leb,
  ltb, ◌==◌, keep, length,
}
use ai_cyber_security_suite.Alerts.Model.{User}
use ai_cyber_security_suite.Broadcaster.Tickets.{Redis, in_redis}

abbrev pub max_streams_per_user : ℕ
max_streams_per_user = 5

abbrev pub max_streams_per_pod : ℕ
max_streams_per_pod = 1000

abbrev pub max_admin_streams_per_user : ℕ
max_admin_streams_per_user = 2

abbrev pub max_admin_streams_global : ℕ
max_admin_streams_global = 10

-- A queue with the user of its metadata.
pub record Listener : Type 0 where
  pub queue : ℕ
  pub user_id : ℕ

-- `_local_subscribers`, `_admin_subscribers`, and the counters; an absent count is 0. The counters of
-- Redis are those that all pods share, by user.
pub record Pod : Type 0 where
  pub locals : List Listener
  pub admins : List Listener
  pub stream_count : ℕ
  pub user_counts : ℕ → ℕ
  pub admin_counts : ℕ → ℕ
  pub redis_counts : ℕ → ℕ

pub data Refusal : Type 0 where
  pod_full forbidden admin_limit admin_capacity user_limit : Refusal

pub data Admission : Type 0 where
  admitted : Pod → Admission
  refused : Refusal → Admission

abbrev pub set_count : (ℕ → ℕ) → ℕ → ℕ → ℕ → ℕ
set_count counts u n v = if v == u then n else counts v

-- The admin constraints; none is no objection.
abbrev pub admin_objection : User → Pod → Option Refusal
admin_objection u p =
    if not u.is_admin
    then some forbidden
    else if leb max_admin_streams_per_user (p.admin_counts u.ident)
    then some admin_limit
    else if leb max_admin_streams_global (length p.admins)
    then some admin_capacity
    else none

-- The user's count, raised by one under its limit: in Redis, or in memory where there is no Redis or
-- it raises.
abbrev pub count_user : Redis → ℕ → Pod → Option Pod
count_user r u p =
    if in_redis r
    then (if ltb max_streams_per_user (p.redis_counts u + 1)
        then none
        else some (record p { redis_counts = set_count p.redis_counts u (p.redis_counts u + 1) }))
    else if leb max_streams_per_user (p.user_counts u)
    then none
    else some (record p { user_counts = set_count p.user_counts u (p.user_counts u + 1) })

abbrev pub add_listener : ℕ → ℕ → Bool → Pod → Pod
add_listener u q true p = record p {
  stream_count = p.stream_count + 1;
  admins = record { queue = q; user_id = u } ∷ p.admins;
  admin_counts = set_count p.admin_counts u (p.admin_counts u + 1);
}
add_listener u q false p = record p {
  stream_count = p.stream_count + 1;
  locals = record { queue = q; user_id = u } ∷ p.locals;
}

abbrev pub admit : ℕ → ℕ → Bool → Option Pod → Admission
admit u q is_admin none = refused user_limit
admit u q is_admin (some p) = admitted (add_listener u q is_admin p)

abbrev pub unless_objection : Redis → User → ℕ → Bool → Pod → Option Refusal → Admission
unless_objection r u q is_admin p (some e) = refused e
unless_objection r u q is_admin p none = admit u.ident q is_admin (count_user r u.ident p)

abbrev pub objection : User → Bool → Pod → Option Refusal
objection u true p = admin_objection u p
objection u false p = none

unfoldable pub register_listener : Redis → User → ℕ → Bool → Pod → Admission
register_listener r u q is_admin p =
    if leb max_streams_per_pod p.stream_count
    then refused pod_full
    else unless_objection r u q is_admin p (objection u is_admin p)

abbrev pub has_queue : ℕ → Listener → Bool
has_queue q l = l.queue == q

abbrev pub is_of : ℕ → ℕ → Listener → Bool
is_of u q l = l.user_id == u && has_queue q l

abbrev pub remove_listener : ℕ → ℕ → Bool → Pod → Pod
remove_listener u q true p = record p {
  stream_count = p.stream_count - 1;
  admins = keep (λ l. not (has_queue q l)) p.admins;
  admin_counts = set_count p.admin_counts u (p.admin_counts u - 1);
}
remove_listener u q false p = record p {
  stream_count = p.stream_count - 1;
  locals = keep (λ l. not (is_of u q l)) p.locals;
}

abbrev pub release_count : Redis → ℕ → Pod → Pod
release_count r u p = record p {
  redis_counts =
      if in_redis r then set_count p.redis_counts u (p.redis_counts u - 1) else p.redis_counts;
  user_counts = set_count p.user_counts u (p.user_counts u - 1);
}

unfoldable pub unregister_listener : Redis → ℕ → ℕ → Bool → Pod → Pod
unregister_listener r u q is_admin p = release_count r u (remove_listener u q is_admin p)
