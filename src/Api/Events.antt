-- ===== src/Api/Events.antt =====
-- api/events.py: the bus between the serial worker and the subscribers. An event is its sequence
-- number, its time and a body, which holds the other keys.
pub mod Replay
pub mod Delivery
pub mod Offers
mod Tests
use openaisg.Common.{
  ℕ, zero, suc, ◌+◌, ◌-◌, Bool, not, List, [], ◌∷◌, ◌++◌, Option, none, some, ltb, ◌==◌,
  if◌then◌else◌, length, drop,
}

abbrev pub queue_depth : ℕ
queue_depth = 256

pub record Event (E : Type 0) : Type 0 where
  pub seq : ℕ
  pub ts : ℕ
  pub body : E

-- The bounded queue, the oldest event first.
pub record Subscriber (E : Type 0) : Type 0 where
  pub q : List (Event E)
  pub dropped : ℕ

-- `_subs` is a list with the identities of the subscribers, and `replay` the `maxlen` of `_ring`.
pub record EventBus (E : Type 0) : Type 0 where
  pub subs : List (ℕ × Subscriber E)
  pub next_id : ℕ
  pub ring : List (Event E)
  pub replay : ℕ
  pub next_seq : ℕ

module _ {E : Type 0} where
  -- `EventBus(replay)`.
  abbrev pub new_bus : ℕ → EventBus E
  new_bus replay = record { subs = []; next_id = 0; ring = []; replay = replay; next_seq = 1 }

  -- The last elements of a list.
  abbrev pub last : ℕ → List (Event E) → List (Event E)
  last n xs = drop (length xs - n) xs

  -- `put_nowait`, behind `get_nowait` where the queue is full.
  unfoldable pub offer : Event E → Subscriber E → Subscriber E
  offer e sub =
      if ltb (length sub.q) queue_depth
      then record sub { q = sub.q ++ (e ∷ []) }
      else record sub { q = drop 1 sub.q ++ (e ∷ []); dropped = sub.dropped + 1 }

  unfoldable offer_all : Event E → List (ℕ × Subscriber E) → List (ℕ × Subscriber E)
  unfolding offer
  offer_all e [] = []
  offer_all e ((id, sub) ∷ subs) = (id, offer e sub) ∷ offer_all e subs

  -- `publish_nowait`; `ts` is the rounded time.
  unfoldable pub publish_nowait : ℕ → E → EventBus E → EventBus E
  unfolding offer_all
  publish_nowait ts body b =
      let e : Event E = record { seq = b.next_seq; ts = ts; body = body } in
      record b {
        ring = last b.replay (b.ring ++ (e ∷ []));
        subs = offer_all e b.subs;
        next_seq = b.next_seq + 1;
      }

  later : ℕ → List (Event E) → List (Event E)
  later seq [] = []
  later seq (e ∷ es) = let rest = later seq es in if ltb seq e.seq then e ∷ rest else rest

  unfoldable pub replay_since : ℕ → EventBus E → List (Event E)
  unfolding later
  replay_since seq b = later seq b.ring

  pub subscribe : EventBus E → ℕ × EventBus E
  subscribe b = (
    b.next_id,
    record b {
      subs = b.subs ++ ((b.next_id, record { q = []; dropped = 0 }) ∷ []);
      next_id = b.next_id + 1;
    },
  )

  without : ℕ → List (ℕ × Subscriber E) → List (ℕ × Subscriber E)
  without id [] = []
  without id ((i, sub) ∷ subs) =
      let rest = without id subs in if i == id then rest else (i, sub) ∷ rest

  pub unsubscribe : ℕ → EventBus E → EventBus E
  unfolding without
  unsubscribe id b = record b { subs = without id b.subs }
