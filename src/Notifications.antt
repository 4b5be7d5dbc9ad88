-- ===== src/Notifications.antt =====
-- Notifications and the production of outbox rows, backend/services/notification_service.py. Texts,
-- urls and secrets are opaque numbers; what a secret is encrypted to, and whether a url is safe, are
-- results of third-party code and arguments. A url that is blank when stripped is none.
pub mod Unread
pub mod Keys
pub mod Settings
mod Examples
use ai_cyber_security_suite.Prelude.{
  ℕ, ◌+◌, ◌-◌, ◌/◌, Bool, true, false, not, ◌||◌, ◌&&◌, Option, none, some, List, [], ◌∷◌, ◌++◌,
  if◌then◌else◌, leb, ltb, ◌==◌, is_none, or_else, get_or, any, find, keep, length, update,
}
use ai_cyber_security_suite.Broadcaster.Envelope.{Severity, rank, medium, high, critical}
use ai_cyber_security_suite.Alerts.Model.{Alert}
use ai_cyber_security_suite.Incidents.Editing.{severity_eq}

-- A row of `notification_preferences`.
pub record Preferences : Type 0 where
  pub user_id : ℕ
  pub in_app_enabled : Bool
  pub email_enabled : Bool
  pub webhook_enabled : Bool
  pub webhook_url : Option ℕ
  pub webhook_secret : Option ℕ
  pub min_severity : Severity
  pub consecutive_failures : ℕ
  pub circuit_broken : Bool
  pub circuit_broken_at : Option ℕ

-- A row of `notifications`.
pub record Notice : Type 0 where
  pub notification_uuid : ℕ
  pub user_id : ℕ
  pub severity : Severity
  pub is_read : Bool

-- The idempotency key of an outbox row: of an alert by its uuid, whether it is escalated, its severity
-- and count; of a suspended target by its uuid, the subtype and the minute.
pub data JobKey : Type 0 where
  alert_key : ℕ → Bool → Severity → ℕ → JobKey
  target_key : ℕ → ℕ → ℕ → JobKey

-- A row of `notification_outbox` as it is produced.
pub record OutboxRow : Type 0 where
  pub outbox_uuid : ℕ
  pub user_id : ℕ
  pub destination_url : ℕ
  pub key : JobKey
  pub attempt_count : ℕ
  pub max_attempts : ℕ
  pub next_attempt_at : ℕ

pub data NoticeEvent : Type 0 where
  notification_dispatched unread_count_updated target_status_changed : NoticeEvent

-- A row of `soc_event_stream`, with the unread count of its payload.
pub record StreamRow : Type 0 where
  pub tenant_id : ℕ
  pub event_type : NoticeEvent
  pub unread_count : Option ℕ

pub record Mailroom : Type 0 where
  pub preferences : List Preferences
  pub notices : List Notice
  pub outbox : List OutboxRow
  pub events : List StreamRow
  -- Who has updated preferences, in `audit_events`.
  pub audits : List ℕ

abbrev pub max_unread_notifications : ℕ
max_unread_notifications = 1000

abbrev pub default_preferences : ℕ → Preferences
default_preferences user = record {
  user_id = user;
  in_app_enabled = true;
  email_enabled = false;
  webhook_enabled = false;
  webhook_url = none;
  webhook_secret = none;
  min_severity = high;
  consecutive_failures = 0;
  circuit_broken = false;
  circuit_broken_at = none;
}

abbrev pub preference_of : ℕ → List Preferences → Option Preferences
preference_of user ps = find (λ p. p.user_id == user) ps

abbrev pub with_preference : ℕ → Mailroom → Option Preferences → Mailroom × Preferences
with_preference user m (some p) = (m, p)
with_preference user m none =
    let p = default_preferences user in (record m { preferences = m.preferences ++ p ∷ [] }, p)

unfoldable pub get_or_create_preferences : ℕ → Mailroom → Mailroom × Preferences
get_or_create_preferences user m = with_preference user m (preference_of user m.preferences)

abbrev pub is_unread_of : ℕ → Notice → Bool
is_unread_of user n = n.user_id == user && not n.is_read

unfoldable pub get_unread_count : ℕ → List Notice → ℕ
get_unread_count user ns = length (keep (is_unread_of user) ns)

abbrev pub is_owned : ℕ → ℕ → Notice → Bool
is_owned user uuid n = n.notification_uuid == uuid && n.user_id == user

abbrev pub read : Notice → Notice
read n = record n { is_read = true }

abbrev pub count_event : ℕ → ℕ → StreamRow
count_event user n = record {
  tenant_id = user;
  event_type = unread_count_updated;
  unread_count = some n;
}

-- The session does not flush by itself, so that the count is that before the UPDATE. none is the 404.
abbrev pub mark_found : ℕ → Mailroom → Option Notice → Option Mailroom
mark_found user m none = none
mark_found user m (some n) =
    if n.is_read
    then some m
    else some (record m {
      notices = update (λ x. x.notification_uuid == n.notification_uuid) read m.notices;
      events = m.events ++ count_event user (get_unread_count user m.notices - 1) ∷ [];
    })

unfoldable pub mark_as_read : ℕ → ℕ → Mailroom → Option Mailroom
unfolding get_unread_count
mark_as_read user uuid m = mark_found user m (find (is_owned user uuid) m.notices)

unfoldable pub mark_all_as_read : ℕ → Mailroom → Mailroom
mark_all_as_read user m = record m {
  notices = update (is_unread_of user) read m.notices;
  events = m.events ++ count_event user 0 ∷ [];
}

-- What a call draws: the uuids of its rows.
pub record Drawn : Type 0 where
  pub now : ℕ
  pub notice_uuid : ℕ
  pub outbox_uuid : ℕ

abbrev pub takes_in_app : Option Preferences → Bool
takes_in_app none = true
takes_in_app (some p) = p.in_app_enabled

abbrev pub notify : ℕ → ℕ → Severity → NoticeEvent → Option ℕ → Mailroom → Mailroom
notify user uuid s ty count m = record m {
  notices =
      m.notices
      ++ record { notification_uuid = uuid; user_id = user; severity = s; is_read = false } ∷ [];
  events = m.events ++ record { tenant_id = user; event_type = ty; unread_count = count } ∷ [];
}

-- The in-app part for an alert, under the cap on unread notifications.
abbrev pub notify_alert : Drawn → ℕ → Severity → Option Preferences → Mailroom → Mailroom
notify_alert d user s p m =
    let unread = get_unread_count user m.notices in
    if takes_in_app p && ltb unread max_unread_notifications
    then notify user d.notice_uuid s notification_dispatched (some (unread + 1)) m
    else m

abbrev pub bool_eq : Bool → Bool → Bool
bool_eq true b = b
bool_eq false b = not b

abbrev pub same_key : JobKey → JobKey → Bool
same_key (alert_key a b c d) (alert_key e f g h) =
    a == e && (bool_eq b f && (severity_eq c g && d == h))
same_key (target_key a b c) (target_key e f g) = a == e && (b == f && c == g)
same_key _ _ = false

abbrev pub outbox_row : Drawn → ℕ → ℕ → JobKey → OutboxRow
outbox_row d user url k = record {
  outbox_uuid = d.outbox_uuid;
  user_id = user;
  destination_url = url;
  key = k;
  attempt_count = 0;
  max_attempts = 3;
  next_attempt_at = d.now;
}

-- Unless a row of the key exists.
abbrev pub enqueue_job : Drawn → ℕ → ℕ → JobKey → Mailroom → Mailroom
enqueue_job d user url k m =
    if any (λ r. same_key r.key k) m.outbox
    then m
    else record m { outbox = m.outbox ++ outbox_row d user url k ∷ [] }

abbrev pub takes_webhook : Severity → Preferences → Bool
takes_webhook s p =
    p.webhook_enabled && (not p.circuit_broken && leb (rank p.min_severity) (rank s))

abbrev pub enqueue_to : Drawn → ℕ → JobKey → Option ℕ → Mailroom → Mailroom
enqueue_to d user k none m = m
enqueue_to d user k (some url) m = enqueue_job d user url k m

abbrev pub enqueue_webhook :
    Drawn → ℕ → Severity → JobKey → Option Preferences → Mailroom → Mailroom
enqueue_webhook d user s k none m = m
enqueue_webhook d user s k (some p) m =
    if takes_webhook s p then enqueue_to d user k p.webhook_url m else m

abbrev pub produce : Drawn → Alert → Bool → Option ℕ → Mailroom → Mailroom
produce d a escalated none m = m
produce d a escalated (some user) m =
    let p = preference_of user m.preferences in
    enqueue_webhook d user a.severity
      (alert_key a.alert_uuid escalated a.severity a.occurrence_count) p
      (notify_alert d user a.severity p m)

-- On a synchronous session; an asynchronous one makes the call return at once.
unfoldable pub create_in_app_and_outbox_for_alert : Drawn → Alert → Bool → Mailroom → Mailroom
unfolding get_unread_count
create_in_app_and_outbox_for_alert d a escalated m = produce d a escalated a.user_id m

-- What the suspension of a target is told by; `minute` is the minute of the key's time stamp.
pub record Suspension : Type 0 where
  pub user_id : ℕ
  pub target_uuid : ℕ
  pub subtype : ℕ
  pub is_ssrf : Bool

abbrev pub takes_suspension : Preferences → Bool
takes_suspension p = p.webhook_enabled && not p.circuit_broken

abbrev pub enqueue_suspension : Drawn → Suspension → Option Preferences → Mailroom → Mailroom
enqueue_suspension d t none m = m
enqueue_suspension d t (some p) m =
    if takes_suspension p
    then enqueue_to d t.user_id (target_key t.target_uuid t.subtype (d.now / 60000000))
        p.webhook_url m
    else m

unfoldable pub create_target_suspension_notification : Drawn → Suspension → Mailroom → Mailroom
create_target_suspension_notification d t m =
    let p = preference_of t.user_id m.preferences in
    let s = (if t.is_ssrf then critical else medium) in
    enqueue_suspension d t p
      (if takes_in_app p then notify t.user_id d.notice_uuid s target_status_changed none m else m)
