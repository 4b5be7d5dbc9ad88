-- ===== src/Broadcaster/Examples.antt =====
-- Small queues and tables, and the theorems at concrete inputs.
use ai_cyber_security_suite.Prelude.{
  ℕ, ◌-◌, ◌≡◌, false, none, some, List, [], ◌∷◌, ◌++◌, refl, arith, keep,
}
use ai_cyber_security_suite.Broadcaster.Envelope.{
  Envelope, alert_created, critical, low, alerts, soc, is_critical_event,
}
use ai_cyber_security_suite.Broadcaster.Queue.{Item, event, enqueue, admit_full}
use ai_cyber_security_suite.Broadcaster.Queue.Eviction.{protected}
use ai_cyber_security_suite.Broadcaster.Queue.Saturation.{enqueue_keeps-protected}
use ai_cyber_security_suite.Broadcaster.Dispatch.{Subscriber, Subscribers, dispatch_to_local_queues}
use ai_cyber_security_suite.Broadcaster.Dispatch.Isolation.{
  elsewhere, dispatch_to_local_queues_isolates,
}
use ai_cyber_security_suite.Broadcaster.Replay.{get_replay_events}

abbrev grave : ℕ → Envelope
grave c = record {
  cursor_id = c;
  event_type = alert_created;
  tenant_id = 3;
  channel = alerts;
  severity = some critical;
  suspended = false;
  content = 0;
}

abbrev minor : ℕ → Envelope
minor c = let e = grave c in record e { severity = some low }

abbrev mixed : List Item
mixed = event (grave 1) ∷ event (minor 2) ∷ []

abbrev all_grave : List Item
all_grave = event (grave 1) ∷ event (grave 2) ∷ []

-- The oldest event that is not critical makes room.
mixed_evicts : enqueue 2 (grave 3) mixed ≡ event (grave 1) ∷ event (grave 3) ∷ []
unfolding enqueue admit_full is_critical_event
mixed_evicts = refl

enqueue_keeps-protected_example :
    keep protected (enqueue 2 (minor 3) mixed) ≡ keep protected (mixed ++ event (minor 3) ∷ [])
unfolding is_critical_event
enqueue_keeps-protected_example = enqueue_keeps-protected 2 (minor 3) mixed (omega arith) (λ h. cc)

abbrev same : Envelope → Envelope
same e = e

abbrev stored : List Envelope
stored = grave 1 ∷ grave 2 ∷ grave 3 ∷ []

-- The client that reconnects at the sentinel's cursor gets event 3, and never event 2.
replay_after_overflow : get_replay_events same 3 (3 - 1) 100 false stored ≡ (grave 3 ∷ [], false)
unfolding get_replay_events
replay_after_overflow = refl

abbrev watcher : ℕ → Subscriber
watcher u = record { user_id = u; channel = soc; min_severity = none; queue = [] }

abbrev watchers : Subscribers
watchers = record { locals = watcher 3 ∷ watcher 4 ∷ []; admins = watcher 1 ∷ [] }

dispatch_to_local_queues_isolates_example :
    keep (elsewhere (grave 5)) (dispatch_to_local_queues 100 same (grave 5) watchers).locals
    ≡ keep (elsewhere (grave 5)) watchers.locals
dispatch_to_local_queues_isolates_example =
    dispatch_to_local_queues_isolates 100 same (grave 5) watchers
