-- ===== src/Api/Stream.antt =====
-- api/app.py `events`: the WebSocket that sends snapshots and events to one client. Between two turns
-- of the handler, that is while it awaits, the worker may publish events. The bus stands here without
-- the client's own subscriber, and the worker's snapshot at a turn is given.
pub mod Accounts
pub mod Honest
mod Tests
use openaisg.Common.{ℕ, Bool, List, [], ◌∷◌, ◌++◌, ◌==◌, if◌then◌else◌}
use openaisg.Api.Events.{Event, Subscriber, EventBus, offer, publish_nowait, replay_since}

-- A message of `send_json`: a snapshot, `resync` with the number of dropped events, or an event.
pub data Message (S E : Type 0) : Type 0 where
  snapshot : S → Message S E
  resync : ℕ → Message S E
  event : Event E → Message S E

-- What happened on the connection.
pub data Happening (S E : Type 0) : Type 0 where
  published : Event E → Happening S E
  sent : Message S E → Happening S E

-- What the handler awaits: that the first snapshot is sent, the queue's next event, that `resync` is
-- sent, or that the snapshot behind it is; `closed` is behind its `finally`.
pub data Place (E : Type 0) : Type 0 where
  greeting waiting : Place E
  telling resynced : Event E → Place E
  closed : Place E

-- `trace` has what happened, the newest first.
pub record Stream (S E : Type 0) : Type 0 where
  pub bus : EventBus E
  pub sub : Subscriber E
  pub place : Place E
  pub trace : List (Happening S E)

pub data Turn (S E : Type 0) : Type 0 where
  publish : ℕ → E → Turn S E
  -- The await is over; the worker's snapshot is given.
  resume : S → Turn S E
  -- The await raises, as where the client disconnects.
  raise : Turn S E

module _ {E : Type 0} where
  -- `if since: ... bus.replay_since(since)`; a negative `since`, which asks for all, is left out.
  abbrev pub missed : ℕ → EventBus E → List (Event E)
  missed since bus = if since == 0 then [] else replay_since since bus

  -- `put_nowait` on the client's queue, while it is subscribed.
  abbrev pub hear : Event E → Place E → Subscriber E → Subscriber E
  hear e closed sub = sub
  hear e place sub = offer e sub

module _ {S E : Type 0} where
  -- The handler up to the first snapshot, which it awaits at `greeting`.
  abbrev pub connected : S → EventBus E → Stream S E
  connected s bus = record {
    bus = bus;
    sub = record { q = []; dropped = 0 };
    place = greeting;
    trace = sent (snapshot s) ∷ [];
  }

  abbrev pub send_all : List (Event E) → List (Happening S E) → List (Happening S E)
  send_all [] trace = trace
  send_all (e ∷ es) trace = send_all es (sent (event e) ∷ trace)

  -- `sub.q.get()`, and the test of `sub.dropped`; an empty queue is awaited further.
  abbrev pub next_event : List (Event E) → Stream S E → Stream S E
  next_event [] w = w
  next_event (e ∷ es) w =
      if w.sub.dropped == 0
      then record w { sub = record w.sub { q = es }; trace = sent (event e) ∷ w.trace }
      else record w {
        sub = record w.sub { q = es };
        place = telling e;
        trace = sent (resync w.sub.dropped) ∷ w.trace;
      }

  -- The replay is a list of its own, so that its sends are one turn.
  unfoldable pub resume_at : ℕ → S → Place E → Stream S E → Stream S E
  resume_at since s greeting w = record w {
    place = waiting;
    trace = send_all (missed since w.bus) w.trace;
  }
  resume_at since s waiting w = next_event w.sub.q w
  resume_at since s (telling e) w = record w {
    sub = record w.sub { dropped = 0 };
    place = resynced e;
    trace = sent (snapshot s) ∷ w.trace;
  }
  resume_at since s (resynced e) w = record w { place = waiting; trace = sent (event e) ∷ w.trace }
  resume_at since s closed w = w

  unfoldable pub step : ℕ → Stream S E → Turn S E → Stream S E
  unfolding resume_at
  step since w (publish ts body) =
      let e : Event E = record { seq = w.bus.next_seq; ts = ts; body = body } in
      record w {
        bus = publish_nowait ts body w.bus;
        sub = hear e w.place w.sub;
        trace = published e ∷ w.trace;
      }
  step since w (resume s) = resume_at since s w.place w
  step since w raise = record w { place = closed }

  -- The connection after turns in any order.
  unfoldable pub run : ℕ → Stream S E → List (Turn S E) → Stream S E
  unfolding step
  run since w [] = w
  run since w (t ∷ ts) = run since (step since w t) ts
