-- ===== src/Alerts/Triage/Rows.antt =====
-- The rows that the triage operations assign have what each operation promises.
use ai_cyber_security_suite.Prelude.{
  ℕ, Bool, false, Option, none, some, List, [], refl, ltb, get_or, or_else, length,
}
use ai_cyber_security_suite.Alerts.Model.{Alert, Request}
use ai_cyber_security_suite.Alerts.Triage.Effects.{TellsOwner, Row}
use ai_cyber_security_suite.Alerts.Triage.{
  first_text, notices, acknowledge_row, resolve_row, dismiss_row, reopen_row, Operation,
  acknowledge, resolve, dismiss, reopen,
}

-- What an operation assigns to the row it finds.
abbrev pub assign : (List ℕ → List ℕ) → ℕ → Operation → Alert → Alert
assign strip now (acknowledge notes triage_notes) = acknowledge_row now (or_else triage_notes notes)
assign strip now (resolve notes resolution_notes triage_notes) =
    resolve_row now (or_else resolution_notes (or_else triage_notes notes))
assign strip now (dismiss dismiss_reason reason triage_notes notes) =
    dismiss_row now (strip (get_or (first_text dismiss_reason reason) []))
      (or_else triage_notes notes)
assign strip now (reopen reopen_notes notes triage_notes) =
    reopen_row (or_else reopen_notes (or_else triage_notes notes))

-- The reason that a dismissal stores.
abbrev pub reason_of : (List ℕ → List ℕ) → Operation → List ℕ
reason_of strip (dismiss dismiss_reason reason triage_notes notes) =
    strip (get_or (first_text dismiss_reason reason) [])
reason_of strip _ = []

abbrev pub too_short : (List ℕ → List ℕ) → Operation → Bool
too_short strip (dismiss dismiss_reason reason triage_notes notes) =
    ltb (length (reason_of strip (dismiss dismiss_reason reason triage_notes notes))) 3
too_short strip _ = false

pub assign-Row :
    (strip : List ℕ → List ℕ) (now : ℕ) (op : Operation) (a : Alert)
    → Row now (reason_of strip op) op a (assign strip now op a)
assign-Row strip now (acknowledge notes triage_notes) a = record {
  status = refl;
  stamped = (refl, refl, refl, refl);
  notes = refl;
  same = record {
    ident = refl;
    alert_uuid = refl;
    title = refl;
    severity = refl;
    rule_name = refl;
    indicator_type = refl;
    indicator_value = refl;
    first_seen_at = refl;
    fingerprint = refl;
    occurrence_count = refl;
    last_seen_at = refl;
    user_id = refl;
    incident_id = refl;
  };
}
assign-Row strip now (resolve notes resolution_notes triage_notes) a = record {
  status = refl;
  stamped = (refl, refl, refl, refl);
  notes = refl;
  same = record {
    ident = refl;
    alert_uuid = refl;
    title = refl;
    severity = refl;
    rule_name = refl;
    indicator_type = refl;
    indicator_value = refl;
    first_seen_at = refl;
    fingerprint = refl;
    occurrence_count = refl;
    last_seen_at = refl;
    user_id = refl;
    incident_id = refl;
  };
}
assign-Row strip now (dismiss dismiss_reason reason triage_notes notes) a = record {
  status = refl;
  stamped = (refl, refl, refl, refl);
  notes = refl;
  same = record {
    ident = refl;
    alert_uuid = refl;
    title = refl;
    severity = refl;
    rule_name = refl;
    indicator_type = refl;
    indicator_value = refl;
    first_seen_at = refl;
    fingerprint = refl;
    occurrence_count = refl;
    last_seen_at = refl;
    user_id = refl;
    incident_id = refl;
  };
}
assign-Row strip now (reopen reopen_notes notes triage_notes) a = record {
  status = refl;
  stamped = (refl, refl, refl, refl);
  notes = refl;
  same = record {
    ident = refl;
    alert_uuid = refl;
    title = refl;
    severity = refl;
    rule_name = refl;
    indicator_type = refl;
    indicator_value = refl;
    first_seen_at = refl;
    fingerprint = refl;
    occurrence_count = refl;
    last_seen_at = refl;
    user_id = refl;
    incident_id = refl;
  };
}

pub notices-TellsOwner :
    (r : Request) (a : Alert) (user : Option ℕ) → TellsOwner r.now a user (notices r a user)
unfolding notices
notices-TellsOwner r a none = refl
notices-TellsOwner r a (some u) = refl
