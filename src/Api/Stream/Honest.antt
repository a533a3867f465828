-- ===== src/Api/Stream/Honest.antt =====
-- That no client of api/app.py `events` misses an event silently.
use openaisg.Common.{
  ℕ, zero, suc, ◌<◌, ◌≡◌, refl, sym, ap, arith, true, false, List, [], ◌∷◌, ◌==◌, length, ◌⊎◌, inl,
  inr,
}
use mathlib.Core.Path.{subst}
use mathlib.Core.List.{Memᴰ}
use mathlib.Core.List.Memᴰ
use openaisg.Api.Events.{Event, Subscriber, EventBus}
use openaisg.Api.Events.Offers.{offered_Memᴰ, offer-length}
use openaisg.Api.Stream.{
  event, Happening, published, sent, Place, greeting, waiting, telling, resynced, closed, Stream,
  Turn, publish, resume, raise, connected, send_all, missed, next_event, resume_at, hear, step, run,
}
use openaisg.Api.Stream.Accounts.{
  in_hand, is_telling, is_closed, hear-cases, unseen, Accounted, queued, held, was_sent, counted,
  told, over, taken-Accounted, unseen-send_all, send_all-Memᴰ, waiting-Accounted, offered-Accounted,
}

module _ {S E : Type 0} where
  record IsHonest (w : Stream S E) : Type 0 where
    accounted : (e : Event E) → Memᴰ e (unseen w.trace) → Accounted e w
    -- A drop is told, since something is left to take.
    backed :
        (0 < length w.sub.q)
        ⊎ (is_telling w.place ≡ true)
        ⊎ (is_closed w.place ≡ true)
        ⊎ (w.sub.dropped ≡ 0)

  next_event-IsHonest :
      (q : List (Event E)) (dropped : ℕ) (bus : EventBus E) (trace : List (Happening S E))
      → let w : Stream S E = record {
        bus = bus;
        sub = record { q = q; dropped = dropped };
        place = waiting;
        trace = trace;
      } in
        IsHonest w → IsHonest (next_event q w)
  next_event-IsHonest [] dropped bus trace h = h
  next_event-IsHonest (x ∷ es) zero bus trace h = record {
    accounted = λ e m. taken-Accounted e x es bus trace (h.accounted e m);
    backed = inr (inr (inr refl));
  }
  next_event-IsHonest (x ∷ es) (suc n) bus trace h =
      let some_dropped : (suc n == 0) ≡ false = ground arith in
      rw some_dropped (record { accounted = λ e m. told refl; backed = inr (inl refl) })

  resume_at-IsHonest :
      (since : ℕ) (s : S) (place : Place E) (bus : EventBus E) (sub : Subscriber E)
      (trace : List (Happening S E))
      → let w : Stream S E = record { bus = bus; sub = sub; place = place; trace = trace } in
        IsHonest w → IsHonest (resume_at since s place w)
  unfolding resume_at
  resume_at-IsHonest since s greeting bus sub trace h = record {
    accounted = λ e m.
        waiting-Accounted e greeting bus sub trace (send_all (missed since bus) trace) refl refl
          (λ x n. absurd (Memᴰ.not-nil n))
          (λ x. send_all-Memᴰ (missed since bus) (sent (event x)) trace)
          (h.accounted e (subst (Memᴰ e) (unseen-send_all (missed since bus) trace) m));
    backed = h.backed;
  }
  resume_at-IsHonest since s waiting bus sub trace h =
      next_event-IsHonest sub.q sub.dropped bus trace h
  resume_at-IsHonest since s (telling x) bus sub trace h = record {
    accounted = λ e m. absurd (Memᴰ.not-nil m);
    backed = inr (inr (inr refl));
  }
  resume_at-IsHonest since s (resynced x) bus sub trace h = record {
    accounted = λ e m.
        waiting-Accounted e (resynced x) bus sub trace (sent (event x) ∷ trace) refl refl
          (λ y n. elim n [
            | Memᴰ.head p ↦ Memᴰ.head (ap (λ z. sent (event z)) p)
            | Memᴰ.tail l ↦ absurd (Memᴰ.not-nil l)
          ])
          (λ y. Memᴰ.tail) (h.accounted e m);
    backed = h.backed;
  }
  resume_at-IsHonest since s closed bus sub trace h = h

  publish-IsHonest :
      (e : Event E) (place : Place E) (bus bus' : EventBus E) (sub : Subscriber E)
      (trace : List (Happening S E))
      → IsHonest (record { bus = bus; sub = sub; place = place; trace = trace })
      → IsHonest (record {
        bus = bus';
        sub = hear e place sub;
        place = place;
        trace = published e ∷ trace;
      })
  publish-IsHonest e place bus bus' sub trace h = elim (hear-cases e place sub) [
    | inl c ↦ record { accounted = λ x m. over c; backed = inr (inr (inl c)) }
    | inr o ↦
        subst
          (λ sub'.
            IsHonest
              (record { bus = bus'; sub = sub'; place = place; trace = published e ∷ trace }))
          (sym o)
          (record {
            accounted = λ x m. elim m [
              | Memᴰ.head p ↦ queued (Memᴰ.cast p (offered_Memᴰ e sub))
              | Memᴰ.tail l ↦ offered-Accounted e x place bus bus' sub trace (h.accounted x l)
            ];
            backed = inl (offer-length e sub);
          })
  ]

  step-IsHonest :
      (since : ℕ) (w : Stream S E) (t : Turn S E) → IsHonest w → IsHonest (step since w t)
  unfolding step
  step-IsHonest since w (publish ts body) h = publish-IsHonest _ w.place w.bus _ w.sub w.trace h
  step-IsHonest since w (resume s) h = resume_at-IsHonest since s w.place w.bus w.sub w.trace h
  step-IsHonest since w raise h = record {
    accounted = λ e m. over refl;
    backed = inr (inr (inl refl));
  }

  run-IsHonest :
      (since : ℕ) (w : Stream S E) (ts : List (Turn S E)) → IsHonest w → IsHonest (run since w ts)
  unfolding run
  run-IsHonest since w [] h = h
  run-IsHonest since w (t ∷ ts) h =
      run-IsHonest since (step since w t) ts (step-IsHonest since w t h)

  connected-IsHonest : (s : S) (bus : EventBus E) → IsHonest (connected s bus)
  connected-IsHonest s bus = record {
    accounted = λ e m. absurd (Memᴰ.not-nil m);
    backed = inr (inr (inr refl));
  }

  -- An honest handler that waits with an empty queue.
  caught_up_lem :
      (e : Event E) (w : Stream S E)
      → w.place ≡ waiting
      → w.sub.q ≡ []
      → IsHonest w
      → Accounted e w
      → Memᴰ (sent (event e)) w.trace
  caught_up_lem e w p q h (queued m) = absurd (Memᴰ.not-nil (subst (Memᴰ e) q m))
  caught_up_lem e w p q h (held m) =
      absurd (Memᴰ.not-nil (subst (λ place. Memᴰ e (in_hand place)) p m))
  caught_up_lem e w p q h (was_sent m) = m
  caught_up_lem e w p q h (counted d) = elim h.backed [
    | inl l ↦ absurd (omega (arith, l, ap length q))
    | inr (inl t) ↦ absurd (ground (arith, t, ap is_telling p))
    | inr (inr (inl c)) ↦ absurd (ground (arith, c, ap is_closed p))
    | inr (inr (inr z)) ↦ absurd (omega (arith, d, z))
  ]
  caught_up_lem e w p q h (told t) = absurd (ground (arith, t, ap is_telling p))
  caught_up_lem e w p q h (over c) = absurd (ground (arith, c, ap is_closed p))

  -- Whenever the WebSocket handler waits for its queue and the queue is empty, every event that was
  -- published behind the last snapshot that it sent was sent to the client, however publishing,
  -- sending and drops of a full queue came between each other before.
  pub run-caught_up :
      (since : ℕ) (s : S) (bus : EventBus E) (ts : List (Turn S E)) (e : Event E)
      → (run since (connected s bus) ts).place ≡ waiting
      → (run since (connected s bus) ts).sub.q ≡ []
      → Memᴰ e (unseen (run since (connected s bus) ts).trace)
      → Memᴰ (sent (event e)) (run since (connected s bus) ts).trace
  run-caught_up since s bus ts e p q m =
      let h = run-IsHonest since (connected s bus) ts (connected-IsHonest s bus) in
      caught_up_lem e (run since (connected s bus) ts) p q h (h.accounted e m)
