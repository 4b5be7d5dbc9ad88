-- ===== src/Broadcaster/Dispatch.antt =====
-- Delivery on one pod: _dispatch_to_local_queues and _dispatch_to_admin_queues. A subscriber is its
-- queue with the queue's metadata; `sanitize` is sanitize_payload_secrets on an envelope.
pub mod Isolation
use ai_cyber_security_suite.Prelude.{
  ℕ, Bool, true, false, ◌||◌, ◌&&◌, not, Option, none, some, List, map, if◌then◌else◌, leb, ◌==◌,
  get_or,
}
use ai_cyber_security_suite.Broadcaster.Envelope.{
  Envelope, Severity, info, rank, Channel, soc, alerts, notifications, monitor,
}
use ai_cyber_security_suite.Broadcaster.Queue.{Item, enqueue}

pub record Subscriber : Type 0 where
  pub user_id : ℕ
  pub channel : Channel
  pub min_severity : Option Severity
  pub queue : List Item

-- `_local_subscribers` (every queue with the user that it is filed under) and `_admin_subscribers`.
pub record Subscribers : Type 0 where
  pub locals : List Subscriber
  pub admins : List Subscriber

abbrev pub channel_eq : Channel → Channel → Bool
channel_eq soc soc = true
channel_eq alerts alerts = true
channel_eq notifications notifications = true
channel_eq monitor monitor = true
channel_eq _ _ = false

-- `req_channel in ["soc", envelope.channel]`
abbrev pub wants_channel : Channel → Envelope → Bool
wants_channel c e = channel_eq c soc || channel_eq c e.channel

-- The severity filter; a payload without a severity counts as INFO.
abbrev pub severe_enough : Option Severity → Envelope → Bool
severe_enough none e = true
severe_enough (some m) e = leb (rank m) (rank (get_or e.severity info))

abbrev pub deliver : ℕ → Bool → Envelope → Subscriber → Subscriber
deliver n wanted e s = record s { queue = if wanted then enqueue n e s.queue else s.queue }

abbrev pub wanted_local : Envelope → Subscriber → Bool
wanted_local e s =
    s.user_id == e.tenant_id && (wants_channel s.channel e && severe_enough s.min_severity e)

module _ (n : ℕ) (sanitize : Envelope → Envelope) where
  unfoldable pub dispatch_to_admin_queues : Envelope → List Subscriber → List Subscriber
  dispatch_to_admin_queues e = map λ s. deliver n (severe_enough s.min_severity e) (sanitize e) s

  unfoldable pub dispatch_to_local_queues : Envelope → Subscribers → Subscribers
  dispatch_to_local_queues e s = record {
    locals = map (λ q. deliver n (wanted_local e q) e q) s.locals;
    admins = dispatch_to_admin_queues e s.admins;
  }
