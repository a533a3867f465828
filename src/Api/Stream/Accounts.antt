-- ===== src/Api/Stream/Accounts.antt =====
-- Where the events are that a client of api/app.py `events` has not been sent.
use openaisg.Common.{◌<◌, ◌≡◌, refl, ap, arith, Bool, true, false, List, [], ◌∷◌, ◌⊎◌, inl, inr}
use mathlib.Core.List.{Memᴰ}
use mathlib.Core.List.Memᴰ
use openaisg.Api.Events.{Event, Subscriber, EventBus, offer}
use openaisg.Api.Events.Offers.{kept_Memᴰ, offer-dropped}
use openaisg.Api.Stream.{
  snapshot, event, Happening, published, sent, Place, greeting, waiting, telling, resynced, closed,
  Stream, send_all, hear,
}

module _ {E : Type 0} where
  -- The event that was taken off the queue and is not sent yet.
  abbrev pub in_hand : Place E → List (Event E)
  in_hand (telling e) = e ∷ []
  in_hand (resynced e) = e ∷ []
  in_hand place = []

  abbrev pub is_telling : Place E → Bool
  is_telling (telling e) = true
  is_telling place = false

  abbrev pub is_closed : Place E → Bool
  is_closed closed = true
  is_closed place = false

  -- A subscriber is offered an event, unless the connection is over.
  pub hear-cases :
      (e : Event E) (place : Place E) (sub : Subscriber E)
      → (is_closed place ≡ true) ⊎ (hear e place sub ≡ offer e sub)
  hear-cases e closed sub = inl refl
  hear-cases e greeting sub = inr refl
  hear-cases e waiting sub = inr refl
  hear-cases e (telling x) sub = inr refl
  hear-cases e (resynced x) sub = inr refl

module _ {S E : Type 0} where
  -- The events that were published behind the last snapshot that was sent.
  abbrev pub unseen : List (Happening S E) → List (Event E)
  unseen [] = []
  unseen (published e ∷ trace) = e ∷ unseen trace
  unseen (sent (snapshot s) ∷ trace) = []
  unseen (sent m ∷ trace) = unseen trace

  -- Where an event is: on the queue, in hand, or sent; or a drop was counted or told, whereupon a
  -- snapshot follows; or the connection is over.
  pub data Accounted (e : Event E) (w : Stream S E) : Type 0 where
    queued : Memᴰ e w.sub.q → Accounted e w
    held : Memᴰ e (in_hand w.place) → Accounted e w
    was_sent : Memᴰ (sent (event e)) w.trace → Accounted e w
    counted : 0 < w.sub.dropped → Accounted e w
    told : is_telling w.place ≡ true → Accounted e w
    over : is_closed w.place ≡ true → Accounted e w

  -- The next event of the queue is taken while no drop is counted.
  pub taken-Accounted :
      (e x : Event E) (es : List (Event E)) (bus : EventBus E) (trace : List (Happening S E))
      → Accounted e (record {
        bus = bus;
        sub = record { q = x ∷ es; dropped = 0 };
        place = waiting;
        trace = trace;
      })
      → Accounted e (record {
        bus = bus;
        sub = record { q = es; dropped = 0 };
        place = waiting;
        trace = sent (event x) ∷ trace;
      })
  taken-Accounted e x es bus trace (queued (Memᴰ.head h)) =
      was_sent (Memᴰ.head (ap (λ y. sent (event y)) h))
  taken-Accounted e x es bus trace (queued (Memᴰ.tail m)) = queued m
  taken-Accounted e x es bus trace (held m) = absurd (Memᴰ.not-nil m)
  taken-Accounted e x es bus trace (was_sent m) = was_sent (Memᴰ.tail m)
  taken-Accounted e x es bus trace (counted h) = counted h
  taken-Accounted e x es bus trace (told h) = told h
  taken-Accounted e x es bus trace (over h) = over h

  -- The replay sends events, and no snapshot.
  pub unseen-send_all :
      (es : List (Event E)) (trace : List (Happening S E))
      → unseen (send_all es trace) ≡ unseen trace
  unseen-send_all [] trace = refl
  unseen-send_all (x ∷ es) trace = unseen-send_all es (sent (event x) ∷ trace)

  pub send_all-Memᴰ :
      (es : List (Event E)) (h : Happening S E) (trace : List (Happening S E))
      → Memᴰ h trace
      → Memᴰ h (send_all es trace)
  send_all-Memᴰ [] h trace m = m
  send_all-Memᴰ (x ∷ es) h trace m = send_all-Memᴰ es h (sent (event x) ∷ trace) (Memᴰ.tail m)

  -- The handler goes on waiting: what was in hand was sent, and the rest is where it was.
  pub waiting-Accounted :
      (e : Event E) (place : Place E) (bus : EventBus E) (sub : Subscriber E)
      (trace trace' : List (Happening S E))
      → is_telling place ≡ false
      → is_closed place ≡ false
      → ((x : Event E) → Memᴰ x (in_hand place) → Memᴰ (sent (event x)) trace')
      → ((x : Event E) → Memᴰ (sent (event x)) trace → Memᴰ (sent (event x)) trace')
      → Accounted e (record { bus = bus; sub = sub; place = place; trace = trace })
      → Accounted e (record { bus = bus; sub = sub; place = waiting; trace = trace' })
  waiting-Accounted e place bus sub trace trace' t c hand on (queued m) = queued m
  waiting-Accounted e place bus sub trace trace' t c hand on (held m) = was_sent (hand e m)
  waiting-Accounted e place bus sub trace trace' t c hand on (was_sent m) = was_sent (on e m)
  waiting-Accounted e place bus sub trace trace' t c hand on (counted h) = counted h
  waiting-Accounted e place bus sub trace trace' t c hand on (told h) =
      absurd (ground (arith, h, t))
  waiting-Accounted e place bus sub trace trace' t c hand on (over h) =
      absurd (ground (arith, h, c))

  pub offered-Accounted :
      (e x : Event E) (place : Place E) (bus bus' : EventBus E) (sub : Subscriber E)
      (trace : List (Happening S E))
      → Accounted x (record { bus = bus; sub = sub; place = place; trace = trace })
      → Accounted x
          (record { bus = bus'; sub = offer e sub; place = place; trace = published e ∷ trace })
  offered-Accounted e x place bus bus' sub trace (queued m) =
      elim (kept_Memᴰ e x sub.q sub.dropped m) [ inl l ↦ queued l | inr d ↦ counted d ]
  offered-Accounted e x place bus bus' sub trace (held m) = held m
  offered-Accounted e x place bus bus' sub trace (was_sent m) = was_sent (Memᴰ.tail m)
  offered-Accounted e x place bus bus' sub trace (counted h) =
      counted (omega (arith, h, offer-dropped e sub))
  offered-Accounted e x place bus bus' sub trace (told h) = told h
  offered-Accounted e x place bus bus' sub trace (over h) = over h
