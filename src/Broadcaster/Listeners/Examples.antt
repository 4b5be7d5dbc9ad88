-- ===== src/Broadcaster/Listeners/Examples.antt =====
-- A user who opens two streams and closes one, and a ticket that is used twice.
use ai_cyber_security_suite.Prelude.{ℕ, ◌≡◌, refl, Bool, true, false, List, [], ◌∷◌}
use ai_cyber_security_suite.Alerts.Model.{User}
use ai_cyber_security_suite.Broadcaster.Tickets.{Tickets, absent, works, Use, create_stream_ticket}
use ai_cyber_security_suite.Broadcaster.Listeners.{
  Pod, add_listener, register_listener, unregister_listener, admitted,
}
use ai_cyber_security_suite.Broadcaster.Listeners.Limits.{
  empty_pod, Reachable, fresh_pod, opens, closes, IsWithin, Reachable-IsWithin, user_counted,
}

abbrev admin : User
admin = record { ident = 7; is_admin = true }

abbrev one_stream : Pod
one_stream = add_listener 7 1 false (user_counted 7 empty_pod)

abbrev two_streams : Pod
two_streams = add_listener 7 2 true (user_counted 7 one_stream)

opens_one : register_listener absent admin 1 false empty_pod ≡ admitted one_stream
unfolding register_listener
opens_one = refl

opens_two : register_listener absent admin 2 true one_stream ≡ admitted two_streams
unfolding register_listener
opens_two = refl

reached : Reachable (unregister_listener absent 7 1 false two_streams)
reached =
    closes 7 1 false (refl, refl) refl
      (opens admin 2 true opens_two (opens admin 1 false opens_one fresh_pod))

Reachable-IsWithin_example : IsWithin (unregister_listener absent 7 1 false two_streams)
Reachable-IsWithin_example = Reachable-IsWithin reached

abbrev no_tickets : Tickets
no_tickets = record { shared = []; in_memory = [] }

abbrev issued : Tickets
issued = create_stream_ticket works 10 7 5 no_tickets

abbrev is_ticket : ℕ → Bool
is_ticket n = true

abbrev again : List Use
again =
    record { redis = works; now = 12; name = 5 }
    ∷ record { redis = absent; now = 13; name = 5 }
    ∷ []
