-- ===== src/Api/Events/Tests.antt =====
-- Runs of api/events.py.
use openaisg.Common.{ℕ, ◌≡◌, refl, arith, List, [], ◌∷◌}
use openaisg.Api.Events.{Event, new_bus, replay_since, subscribe, unsubscribe}
use openaisg.Api.Events.Replay.{publish_all, replay_since_complete}
use openaisg.Api.Events.Delivery.{Step, published, taken, subscribed, run, IsOrderly, run-IsOrderly}

-- Five events at the times 10 to 50, on a bus that keeps three.
abbrev events : List (ℕ × ℕ)
events = (10, 7) ∷ (20, 8) ∷ (30, 9) ∷ (40, 7) ∷ (50, 8) ∷ []

abbrev fourth : Event ℕ
fourth = record { seq = 4; ts = 40; body = 7 }

abbrev fifth : Event ℕ
fifth = record { seq = 5; ts = 50; body = 8 }

replay_since_complete_example :
    replay_since 3 (publish_all events (new_bus 3)) ≡ fourth ∷ fifth ∷ []
replay_since_complete_example = replay_since_complete events 3 3 (omega arith)

-- A subscriber that is gone receives nothing.
unsubscribe_last : (unsubscribe 0 (subscribe (new_bus {E = ℕ} 3)).1).subs ≡ []
unfolding unsubscribe subscribe
unsubscribe_last = refl

abbrev steps : List (Step ℕ)
steps = published fourth ∷ taken ∷ published fifth ∷ []

run-IsOrderly_example : IsOrderly (run subscribed steps)
run-IsOrderly_example = run-IsOrderly steps
