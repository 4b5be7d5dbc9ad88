-- ===== src/Alerts/Ingestion.antt =====
-- process_event and compute_fingerprint of backend/services/alert_service.py: an event joins an active
-- alert of its kind, or makes a new one. Texts are opaque numbers; what is computed of texts, the
-- domain of an indicator and the digest are an argument, `Texts`.
pub mod Counting
pub mod Calls
pub mod Totals
pub mod Bursts
mod Examples
use ai_cyber_security_suite.Prelude.{
  ℕ, zero, suc, ◌+◌, ◌*◌, ◌^◌, Bool, true, false, not, ◌||◌, ◌&&◌, Option, none, some, List, [],
  ◌∷◌, ◌++◌, map, if◌then◌else◌, leb, ltb, ◌==◌, is_none, get_or, or_else, sql_eq, find, length,
  update,
}
use ai_cyber_security_suite.Broadcaster.Envelope.{Severity, rank}
use ai_cyber_security_suite.Alerts.Model.{Alert, AlertStatus, open_, acknowledged, status_eq}
use ai_cyber_security_suite.Notifications.{
  Mailroom, StreamRow, Drawn, create_in_app_and_outbox_for_alert,
}

-- normalize_canonical_domain of an indicator, as far as it is read; an empty text is none.
pub record Normal : Type 0 where
  pub registered_domain : Option ℕ
  pub fqdn : Option ℕ
  pub path : Option ℕ

-- `digest` is the SHA-256 of texts joined by colons.
pub record Texts : Type 0 where
  pub empty : ℕ
  pub slash : ℕ
  pub system : ℕ
  pub upper : ℕ → ℕ
  pub clean : ℕ → ℕ
  pub user_text : ℕ → ℕ
  pub normal : ℕ → Normal
  pub digest : List ℕ → ℕ
  pub rule_of : ℕ → ℕ
  pub title : ℕ → ℕ → ℕ

-- A SecurityEventSchema.
pub record Event : Type 0 where
  pub event_type : ℕ
  pub severity : Severity
  pub indicator_type : ℕ
  pub indicator_value : ℕ
  pub user_id : Option ℕ

-- The event_stream row of an alert and its publication; an absent id is none.
pub record Announcement : Type 0 where
  pub is_new : Bool
  pub tenant_id : ℕ
  pub aggregate_id : Option ℕ
  pub severity : Severity
  pub status : AlertStatus
  pub occurrence_count : ℕ

pub data Publication : Type 0 where
  of_alert : Announcement → Publication
  of_notice : StreamRow → Publication

-- The tables; what was published, and the alerts whose containment was started.
pub record Desk : Type 0 where
  pub alerts : List Alert
  pub mail : Mailroom
  pub events : List Announcement
  pub published : List Publication
  pub contained : List ℕ

-- What a call draws. `race` is none, or the alerts that are found after its insert has failed.
pub record Draw : Type 0 where
  pub now : ℕ
  pub ident : ℕ
  pub alert_uuid : ℕ
  pub notice : Drawn
  pub race : Option (List Alert)

-- `raised` is the exception of an insert, after the rollback.
pub data Processed : Type 0 where
  done : Desk → Alert → Bool → Processed
  raised : Desk → Processed

abbrev pub dedup_window : ℕ
dedup_window = 15 * 60 * 10 ^ 6

abbrev pub user_text_of : Texts → Option ℕ → ℕ
user_text_of x none = x.system
user_text_of x (some u) = x.user_text u

unfoldable pub compute_fingerprint : Texts → ℕ → ℕ → ℕ → Option ℕ → ℕ
compute_fingerprint x rule ty value user =
    let norm = x.normal value in
    x.digest (
      x.upper rule
      ∷ x.upper ty
      ∷ x.clean value
      ∷ get_or (or_else norm.registered_domain norm.fqdn) x.empty
      ∷ get_or norm.path x.slash
      ∷ user_text_of x user
      ∷ [])

abbrev pub effective_rule : Texts → Event → Option ℕ → ℕ
effective_rule x e rule = get_or rule (x.rule_of e.event_type)

abbrev pub fingerprint_of : Texts → Event → Option ℕ → ℕ
fingerprint_of x e rule =
    compute_fingerprint x (effective_rule x e rule) e.indicator_type e.indicator_value e.user_id

abbrev pub same_user : Option ℕ → Alert → Bool
same_user none a = is_none a.user_id
same_user (some u) a = sql_eq a.user_id u

abbrev pub is_active : Alert → Bool
is_active a = status_eq a.status open_ || status_eq a.status acknowledged

-- The WHERE clause: an active alert of the rule, type and user, seen within the window, of the same
-- fingerprint or indicator.
abbrev pub is_candidate : Texts → ℕ → Event → Option ℕ → Alert → Bool
is_candidate x now e rule a =
    a.rule_name == effective_rule x e rule
    && (a.indicator_type == e.indicator_type
        && (is_active a
            && (leb now (a.last_seen_at + dedup_window)
                && (same_user e.user_id a
                    && (sql_eq a.fingerprint (fingerprint_of x e rule)
                        || a.indicator_value == e.indicator_value)))))

abbrev pub later : Alert → Option Alert → Option Alert
later a none = some a
later a (some b) = if ltb a.last_seen_at b.last_seen_at then some b else some a

-- `ORDER BY last_seen_at DESC`, the first row.
abbrev pub newest : (Alert → Bool) → List Alert → Option Alert
newest test [] = none
newest test (a ∷ rest) = let found = newest test rest in if test a then later a found else found

abbrev pub higher_severity : Severity → Severity → Severity
higher_severity s t = if leb (rank t) (rank s) then s else t

abbrev pub is_set : Option ℕ → Bool
is_set none = false
is_set (some n) = not (n == 0)

-- `if incident_id and not existing_alert.incident_id`
abbrev pub linked : Option ℕ → Option ℕ → Option ℕ
linked incident old = if is_set incident && not (is_set old) then incident else old

abbrev pub grouped : ℕ → ℕ → Event → Option ℕ → Alert → Alert
grouped now fingerprint e incident a = record a {
  occurrence_count = a.occurrence_count + 1;
  last_seen_at = now;
  fingerprint = some fingerprint;
  severity = higher_severity a.severity e.severity;
  incident_id = linked incident a.incident_id;
}

-- After an insert that failed: neither fingerprint nor incident is set.
abbrev pub retried : ℕ → Event → Alert → Alert
retried now e a = record a {
  occurrence_count = a.occurrence_count + 1;
  last_seen_at = now;
  severity = higher_severity a.severity e.severity;
}

abbrev pub new_alert : Texts → Draw → Event → Option ℕ → Option ℕ → Alert
new_alert x d e rule incident = record {
  ident = d.ident;
  alert_uuid = d.alert_uuid;
  title = x.title (effective_rule x e rule) e.indicator_value;
  severity = e.severity;
  status = open_;
  rule_name = effective_rule x e rule;
  indicator_type = e.indicator_type;
  indicator_value = e.indicator_value;
  fingerprint = some (fingerprint_of x e rule);
  occurrence_count = 1;
  first_seen_at = d.now;
  last_seen_at = d.now;
  acknowledged_at = none;
  resolved_at = none;
  dismissed_at = none;
  dismiss_reason = none;
  triage_notes = none;
  user_id = e.user_id;
  incident_id = incident;
}

abbrev pub announcement : Bool → Option ℕ → Alert → Announcement
announcement is_new uuid a = record {
  is_new = is_new;
  tenant_id = get_or a.user_id 0;
  aggregate_id = uuid;
  severity = a.severity;
  status = a.status;
  occurrence_count = a.occurrence_count;
}

abbrev pub drop {ℓ} : {A : Type ℓ} → ℕ → List A → List A
drop zero xs = xs
drop (suc n) [] = []
drop (suc n) (x ∷ xs) = drop n xs

-- The commit of one announcement with the notifications that were written, and the publications.
abbrev pub announced : Announcement → List Alert → Mailroom → Desk → Desk
announced told rows mail s = record s {
  alerts = rows;
  mail = mail;
  events = s.events ++ told ∷ [];
  published =
      s.published ++ (of_alert told ∷ map of_notice (drop (length s.mail.events) mail.events));
}

abbrev pub is_escalation : Alert → Alert → Bool
is_escalation old new = ltb (rank old.severity) (rank new.severity)

abbrev pub escalation_mail : Draw → Alert → Alert → Mailroom → Mailroom
escalation_mail d old new m =
    if is_escalation old new then create_in_app_and_outbox_for_alert d.notice new true m else m

abbrev pub group_event : Texts → Draw → Event → Option ℕ → Option ℕ → Desk → Alert → Processed
group_event x d e rule incident s a =
    let assign = grouped d.now (fingerprint_of x e rule) e incident in
    let b = assign a in
    done
      (announced (announcement false (some b.alert_uuid) b)
        (update (λ y. y.ident == a.ident) assign s.alerts) (escalation_mail d a b s.mail) s)
      b false

-- The retry in the exception's branch; it notifies nobody.
abbrev pub retry_event : Draw → Event → Desk → Option Alert → Processed
retry_event d e s none = raised s
retry_event d e s (some a) =
    let b = retried d.now e a in
    done
      (announced (announcement false (some b.alert_uuid) b)
        (update (λ y. y.ident == a.ident) (retried d.now e) s.alerts) s.mail s)
      b false

-- The uuid is drawn when the row is flushed; a query for the preferences of its user flushes it, and an
-- alert of no user is announced before.
abbrev pub flushed_uuid : Alert → Option ℕ
flushed_uuid a = if is_none a.user_id then none else some a.alert_uuid

abbrev pub insert_event :
    Texts → Draw → Event → Option ℕ → Option ℕ → Desk → Option (List Alert) → Processed
insert_event x d e rule incident s (some rows) =
    retry_event d e (record s { alerts = rows }) (find (is_candidate x d.now e rule) rows)
insert_event x d e rule incident s none =
    let a = new_alert x d e rule incident in
    let t =
      announced (announcement true (flushed_uuid a) a) (s.alerts ++ a ∷ [])
        (create_in_app_and_outbox_for_alert d.notice a false s.mail) s in
    done (record t { contained = t.contained ++ a.ident ∷ [] }) a true

abbrev pub unless_active :
    Texts → Draw → Event → Option ℕ → Option ℕ → Desk → Option Alert → Processed
unless_active x d e rule incident s none = insert_event x d e rule incident s d.race
unless_active x d e rule incident s (some a) = group_event x d e rule incident s a

unfoldable pub process_event : Texts → Draw → Event → Option ℕ → Option ℕ → Desk → Processed
process_event x d e rule incident s =
    unless_active x d e rule incident s (newest (is_candidate x d.now e rule) s.alerts)
