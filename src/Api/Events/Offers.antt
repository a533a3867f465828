-- ===== src/Api/Events/Offers.antt =====
-- What an offer to a subscriber of api/events.py does to its queue.
use openaisg.Common.{
  ℕ, ◌<◌, ◌≤◌, arith, List, [], ◌∷◌, ltb, length, length-append, drop, Bool-cases, ◌⊎◌, inl, inr,
  refl,
}
use mathlib.Core.List.{Memᴰ}
use mathlib.Core.List.Memᴰ
use openaisg.Api.Events.{Event, Subscriber, queue_depth, offer}

module _ {E : Type 0} where
  -- The newest event of a queue is there after it was offered.
  pub offered_Memᴰ : (e : Event E) (sub : Subscriber E) → Memᴰ e (offer e sub).q
  unfolding offer
  offered_Memᴰ e sub = elim (Bool-cases (ltb (length sub.q) queue_depth)) [
    | inl fits ↦ rw fits (Memᴰ.append_right sub.q (Memᴰ.head refl))
    | inr full ↦ rw full (Memᴰ.append_right (drop 1 sub.q) (Memᴰ.head refl))
  ]

  -- What was in a queue still is, or a drop was counted.
  pub kept_Memᴰ :
      (e x : Event E) (q : List (Event E)) (dropped : ℕ)
      → Memᴰ x q
      → let sub : Subscriber E = record { q = q; dropped = dropped } in
        Memᴰ x (offer e sub).q ⊎ (0 < (offer e sub).dropped)
  unfolding offer
  kept_Memᴰ e x q dropped m = elim (Bool-cases (ltb (length q) queue_depth)) [
    | inl fits ↦ rw fits (inl (Memᴰ.append_left (e ∷ []) m))
    | inr full ↦ rw full (inr (omega arith))
  ]

  -- An offer forgets no drop, and leaves something in the queue.
  pub offer-dropped : (e : Event E) (sub : Subscriber E) → sub.dropped ≤ (offer e sub).dropped
  unfolding offer
  offer-dropped e sub = ground arith

  pub offer-length : (e : Event E) (sub : Subscriber E) → 0 < length (offer e sub).q
  unfolding offer
  offer-length e sub =
      ground (arith, length-append sub.q (e ∷ []), length-append (drop 1 sub.q) (e ∷ []))
