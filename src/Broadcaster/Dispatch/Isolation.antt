-- ===== src/Broadcaster/Dispatch/Isolation.antt =====
-- Whom a dispatch reaches.
use ai_cyber_security_suite.Prelude.{
  ℕ, ◌≡◌, ap, Bool, not, List, [], ◌∷◌, map, refl, ◌==◌, keep, Bool-cases, inl, inr,
}
use ai_cyber_security_suite.Broadcaster.Envelope.{Envelope}
use ai_cyber_security_suite.Broadcaster.Dispatch.{
  Subscriber, Subscribers, deliver, wanted_local, dispatch_to_local_queues,
}

abbrev pub elsewhere : Envelope → Subscriber → Bool
elsewhere e s = not (s.user_id == e.tenant_id)

others_kept :
    (n : ℕ) (e : Envelope) (ss : List Subscriber)
    → keep (elsewhere e) (map (λ q. deliver n (wanted_local e q) e q) ss) ≡ keep (elsewhere e) ss
others_kept n e [] = refl
others_kept n e (s ∷ ss) = elim (Bool-cases (s.user_id == e.tenant_id)) [
  | inl t ↦ rw t (others_kept n e ss)
  | inr t ↦ rw t (ap (◌∷◌ s) (others_kept n e ss))
]

-- Dispatching an event to the local queues leaves the queues of every tenant but the event's as
-- they were.
pub dispatch_to_local_queues_isolates :
    (n : ℕ) (sanitize : Envelope → Envelope) (e : Envelope) (s : Subscribers)
    → keep (elsewhere e) (dispatch_to_local_queues n sanitize e s).locals
      ≡ keep (elsewhere e) s.locals
unfolding dispatch_to_local_queues
dispatch_to_local_queues_isolates n sanitize e s = others_kept n e s.locals
