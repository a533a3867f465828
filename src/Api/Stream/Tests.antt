-- ===== src/Api/Stream/Tests.antt =====
-- Runs of the WebSocket of api/app.py `events`.
use openaisg.Common.{ℕ, zero, suc, ◌≡◌, refl, List, [], ◌∷◌}
use mathlib.Core.List.{Memᴰ}
use openaisg.Api.Events.{Event, EventBus, new_bus, publish_nowait, replay_since, offer}
use openaisg.Api.Stream.{
  snapshot, resync, event, published, sent, Stream, Turn, publish, resume, connected, run, step,
  resume_at,
}
use openaisg.Api.Stream.Honest.{run-caught_up}

-- The event at a time, by its number.
abbrev event_at : ℕ → ℕ → Event ℕ
event_at seq ts = record { seq = seq; ts = ts; body = 7 }

abbrev start : Stream ℕ ℕ
start = connected 100 (new_bus 500)

-- An event between the first snapshot and the replay is sent by both.
abbrev late : List (Turn ℕ ℕ)
late = publish 10 7 ∷ resume 100 ∷ resume 100 ∷ []

run-caught_up_example : Memᴰ (sent (event (event_at 1 10))) (run 0 start late).trace
unfolding run step resume_at offer publish_nowait
run-caught_up_example =
    run-caught_up 0 100 (new_bus 500) late (event_at 1 10) refl refl (Memᴰ.head refl)

abbrev early_bus : EventBus ℕ
early_bus = publish_nowait 5 7 (new_bus 500)

sent_twice :
    (run 1 (connected 100 early_bus) late).trace
    ≡ sent (event (event_at 2 10))
      ∷ sent (event (event_at 2 10))
      ∷ published (event_at 2 10)
      ∷ sent (snapshot 100)
      ∷ []
unfolding run step resume_at offer publish_nowait replay_since
sent_twice = refl

-- One event more than the queue holds: the client is told, is sent a snapshot, and goes on with the
-- second event.
abbrev many : ℕ → List (Turn ℕ ℕ) → List (Turn ℕ ℕ)
many zero ts = ts
many (suc n) ts = publish 10 7 ∷ many n ts

abbrev front : {A : Type 0} → ℕ → List A → List A
front zero xs = []
front (suc n) [] = []
front (suc n) (x ∷ xs) = x ∷ front n xs

told_of_drop :
    front 3 (run 0 start (resume 100 ∷ many 257 (resume 100 ∷ resume 101 ∷ resume 101 ∷ []))).trace
    ≡ sent (event (event_at 2 10)) ∷ sent (snapshot 101) ∷ sent (resync 1) ∷ []
unfolding run step resume_at offer publish_nowait
told_of_drop = refl
