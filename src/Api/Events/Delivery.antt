-- ===== src/Api/Events/Delivery.antt =====
-- What one subscriber of api/events.py receives, while events are published and it takes events off
-- its queue in any order of steps.
use openaisg.Common.{
  ℕ, ◌+◌, ◌≤◌, ◌≡◌, refl, sym, ap, ◌∙◌, arith, List, [], ◌∷◌, ◌++◌, append_assoc, ltb, length,
  length-append, Bool-cases, inl, inr,
}
use openaisg.Api.Events.{Event, Subscriber, queue_depth, offer}

pub data Step (E : Type 0) : Type 0 where
  published : Event E → Step E
  -- `await sub.q.get()`, where an event is there.
  taken : Step E

-- The first list is the second without some of its elements.
pub data Subsequence {A : Type 0} : List A → List A → Type 0 where
  nothing : Subsequence [] []
  skipped : {x : A} {xs ys : List A} → Subsequence xs ys → Subsequence xs (x ∷ ys)
  kept : {x : A} {xs ys : List A} → Subsequence xs ys → Subsequence (x ∷ xs) (x ∷ ys)

module _ {A : Type 0} where
  skip_last : (x : A) {xs ys : List A} → Subsequence xs ys → Subsequence xs (ys ++ (x ∷ []))
  skip_last x nothing = skipped nothing
  skip_last x (skipped s) = skipped (skip_last x s)
  skip_last x (kept s) = kept (skip_last x s)

  keep_last :
      (x : A) {xs ys : List A} → Subsequence xs ys → Subsequence (xs ++ (x ∷ [])) (ys ++ (x ∷ []))
  keep_last x nothing = kept nothing
  keep_last x (skipped s) = skipped (keep_last x s)
  keep_last x (kept s) = kept (keep_last x s)

-- A subscriber, the events that it took, and those that were published since it subscribed.
pub record History (E : Type 0) : Type 0 where
  pub sub : Subscriber E
  pub received : List (Event E)
  pub log : List (Event E)

module _ {E : Type 0} where
  take_event : History E → List (Event E) → History E
  take_event h [] = h
  take_event h (e ∷ es) = record h {
    sub = record h.sub { q = es };
    received = h.received ++ (e ∷ []);
  }

  unfoldable step : History E → Step E → History E
  unfolding take_event
  step h (published e) = record h { sub = offer e h.sub; log = h.log ++ (e ∷ []) }
  step h taken = take_event h h.sub.q

  pub run : History E → List (Step E) → History E
  run h [] = h
  run h (s ∷ ss) = run (step h s) ss

  abbrev pub subscribed : History E
  subscribed = record { sub = record { q = []; dropped = 0 }; received = []; log = [] }

  -- The queue is the end of the log; before it, in order, are the events that were taken and those
  -- that were dropped.
  pub record IsOrderly (h : History E) : Type 0 where
    pub gone : List (Event E)
    pub split : h.log ≡ gone ++ h.sub.q
    pub some_taken : Subsequence h.received gone
    pub counted : length gone ≡ h.sub.dropped + length h.received
    pub bounded : length h.sub.q ≤ queue_depth

  -- A history by its parts.
  abbrev history : List (Event E) → ℕ → List (Event E) → List (Event E) → History E
  history q dropped received log = record {
    sub = record { q = q; dropped = dropped };
    received = received;
    log = log;
  }

  -- An event leaves the front of the queue and another one joins it.
  shifted :
      (gone q : List (Event E)) (x e : Event E)
      → (gone ++ (x ∷ q)) ++ (e ∷ []) ≡ (gone ++ (x ∷ [])) ++ (q ++ (e ∷ []))
  shifted gone q x e =
      append_assoc gone (x ∷ q) (e ∷ []) ∙ sym (append_assoc gone (x ∷ []) (q ++ (e ∷ [])))

  publish-IsOrderly :
      (e : Event E) (q : List (Event E)) (dropped : ℕ) (received log : List (Event E))
      → IsOrderly (history q dropped received log)
      → IsOrderly (step (history q dropped received log) (published e))
  unfolding step offer
  publish-IsOrderly e [] dropped received log o = record {
    gone = o.gone;
    split = ap (λ l. l ++ (e ∷ [])) o.split ∙ append_assoc o.gone [] (e ∷ []);
    some_taken = o.some_taken;
    counted = o.counted;
    bounded = omega arith;
  }
  publish-IsOrderly e (x ∷ q) dropped received log o =
      elim (Bool-cases (ltb (length (x ∷ q)) queue_depth)) [
        | inl fits ↦ rw fits (record {
          gone = o.gone;
          split = ap (λ l. l ++ (e ∷ [])) o.split ∙ append_assoc o.gone (x ∷ q) (e ∷ []);
          some_taken = o.some_taken;
          counted = o.counted;
          bounded = ground (arith, fits, length-append q (e ∷ []));
        })
        | inr full ↦ rw full (record {
          gone = o.gone ++ (x ∷ []);
          split = ap (λ l. l ++ (e ∷ [])) o.split ∙ shifted o.gone q x e;
          some_taken = skip_last x o.some_taken;
          counted = omega (arith, o.counted, length-append o.gone (x ∷ []));
          bounded = omega (arith, o.bounded, length-append q (e ∷ []));
        })
      ]

  take-IsOrderly :
      (q : List (Event E)) (dropped : ℕ) (received log : List (Event E))
      → IsOrderly (history q dropped received log)
      → IsOrderly (step (history q dropped received log) taken)
  unfolding step take_event
  take-IsOrderly [] dropped received log o = o
  take-IsOrderly (x ∷ q) dropped received log o = record {
    gone = o.gone ++ (x ∷ []);
    split = o.split ∙ sym (append_assoc o.gone (x ∷ []) q);
    some_taken = keep_last x o.some_taken;
    counted =
        omega (arith, o.counted, length-append o.gone (x ∷ []), length-append received (x ∷ []));
    bounded = omega (arith, o.bounded);
  }

  run-IsOrderly-from :
      (h : History E) (steps : List (Step E)) → IsOrderly h → IsOrderly (run h steps)
  unfolding run
  run-IsOrderly-from h [] o = o
  run-IsOrderly-from h (published e ∷ ss) o =
      run-IsOrderly-from (step h (published e)) ss
        (publish-IsOrderly e h.sub.q h.sub.dropped h.received h.log o)
  run-IsOrderly-from h (taken ∷ ss) o =
      run-IsOrderly-from (step h taken) ss (take-IsOrderly h.sub.q h.sub.dropped h.received h.log o)

  -- However the publishing of events and the taking of events by a new subscriber alternate, its
  -- queue holds at most 256 events and is the end of the events that were published; those before
  -- it are in number the dropped ones and the taken ones together, and the taken ones are among
  -- them in order.
  pub run-IsOrderly : (steps : List (Step E)) → IsOrderly (run subscribed steps)
  run-IsOrderly steps = run-IsOrderly-from subscribed steps (record {
    gone = [];
    split = refl;
    some_taken = nothing;
    counted = refl;
    bounded = omega arith;
  })
