-- ===== src/Api/Events/Replay.antt =====
-- What the replay ring of api/events.py holds.
use openaisg.Common.{
  ℕ, zero, suc, ◌+◌, ◌-◌, ◌≤◌, ◌≡◌, refl, sym, ap, ◌∙◌, arith, List, [], ◌∷◌, ◌++◌, append-nil,
  append_assoc, ltb, length, drop, drop-nil, length-append, length-drop, Bool-cases, inl, inr,
}
use openaisg.Api.Events.{Event, EventBus, new_bus, last, publish_nowait, later, replay_since}

module _ {A : Type 0} where
  drop-drop : (m n : ℕ) (xs : List A) → drop m (drop n xs) ≡ drop (n + m) xs
  drop-drop m zero xs = ap (λ k. drop k xs) (omega arith)
  drop-drop m (suc n) [] = drop-nil m ∙ sym (drop-nil (suc n + m))
  drop-drop m (suc n) (x ∷ xs) =
      let e : suc (n + m) ≡ suc n + m = omega arith in
      drop-drop m n xs ∙ ap (λ k. drop k (x ∷ xs)) e

  drop_front : (n : ℕ) (xs ys : List A) → n ≤ length xs → drop n (xs ++ ys) ≡ drop n xs ++ ys
  drop_front zero xs ys h = refl
  drop_front (suc n) [] ys h = absurd (omega arith)
  drop_front (suc n) (x ∷ xs) ys h = drop_front n xs ys (omega arith)

module _ {E : Type 0} where
  -- Keeping the last events one at a time keeps the last events.
  last-append :
      (k : ℕ) (log : List (Event E)) (e : Event E)
      → last k (last k log ++ (e ∷ [])) ≡ last k (log ++ (e ∷ []))
  last-append k log e =
      ap (last k) (sym (drop_front (length log - k) log (e ∷ []) (omega arith)))
      ∙ drop-drop _ (length log - k) (log ++ (e ∷ []))
      ∙ ap (λ n. drop n (log ++ (e ∷ [])))
          (omega
            (arith, length-drop (length log - k) (log ++ (e ∷ [])), length-append log (e ∷ [])))

  -- Events with the sequence numbers from `n` on.
  abbrev stamped : ℕ → List (ℕ × E) → List (Event E)
  stamped n [] = []
  stamped n ((ts, body) ∷ es) = record { seq = n; ts = ts; body = body } ∷ stamped (n + 1) es

  abbrev pub publish_all : List (ℕ × E) → EventBus E → EventBus E
  publish_all [] b = b
  publish_all ((ts, body) ∷ es) b = publish_all es (publish_nowait ts body b)

  publish_all-last :
      (es : List (ℕ × E)) (b : EventBus E) (log : List (Event E))
      → b.ring ≡ last b.replay log
      → (publish_all es b).ring ≡ last b.replay (log ++ stamped b.next_seq es)
  unfolding publish_nowait
  publish_all-last [] b log h = h ∙ ap (last b.replay) (sym (append-nil log))
  publish_all-last ((ts, body) ∷ es) b log h =
      let e : Event E = record { seq = b.next_seq; ts = ts; body = body } in
      publish_all-last es (publish_nowait ts body b) (log ++ (e ∷ []))
        (ap (λ r. last b.replay (r ++ (e ∷ []))) h ∙ last-append b.replay log e)
      ∙ ap (last b.replay) (append_assoc log (e ∷ []) (stamped (b.next_seq + 1) es))

  length-stamped : (n : ℕ) (es : List (ℕ × E)) → length (stamped n es) ≡ length es
  length-stamped n [] = refl
  length-stamped n (e ∷ es) = ap suc (length-stamped (n + 1) es)

  drop-stamped : (m n : ℕ) (es : List (ℕ × E)) → drop m (stamped n es) ≡ stamped (n + m) (drop m es)
  drop-stamped zero n es = ap (λ k. stamped k es) (omega arith)
  drop-stamped (suc m) n [] = refl
  drop-stamped (suc m) n (e ∷ es) =
      drop-stamped m (n + 1) es ∙ ap (λ k. stamped k (drop m es)) (omega arith)

  later-stamped :
      (seq n : ℕ) (es : List (ℕ × E)) → later seq (stamped n es) ≡ drop (seq + 1 - n) (stamped n es)
  unfolding later
  later-stamped seq n [] = sym (drop-nil (seq + 1 - n))
  later-stamped seq n ((ts, body) ∷ es) =
      let e : Event E = record { seq = n; ts = ts; body = body } in
      let rest = later-stamped seq (n + 1) es in
      elim (Bool-cases (ltb seq n)) [
        | inl new ↦
            let here : 0 ≡ seq + 1 - n = ground (arith, new) in
            let there : seq + 1 - (n + 1) ≡ 0 = ground (arith, new) in
            rw new (
              ap (λ l. e ∷ l) (rest ∙ ap (λ k. drop k (stamped (n + 1) es)) there)
              ∙ ap (λ k. drop k (e ∷ stamped (n + 1) es)) here)
        | inr old ↦
            let on : suc (seq + 1 - (n + 1)) ≡ seq + 1 - n = ground (arith, old) in
            rw old (rest ∙ ap (λ k. drop k (e ∷ stamped (n + 1) es)) on)
      ]

  -- The ring after events were published on a new bus.
  publish_all-ring :
      (es : List (ℕ × E)) (replay : ℕ)
      → (publish_all es (new_bus replay)).ring ≡ last replay (stamped 1 es)
  publish_all-ring es replay = publish_all-last es (new_bus replay) [] (sym (drop-nil (0 - replay)))

  -- On a new bus, if no more events were published since a sequence number than the ring holds, the
  -- replay since it is exactly the events behind it, in order and with consecutive numbers.
  pub replay_since_complete :
      (es : List (ℕ × E)) (replay seq : ℕ)
      → length es ≤ seq + replay
      → replay_since seq (publish_all es (new_bus replay)) ≡ drop seq (stamped 1 es)
  unfolding replay_since
  replay_since_complete es replay seq near =
      let log : List (Event E) = stamped 1 es in
      let gone : ℕ = length log - replay in
      ap (later seq) (publish_all-ring es replay ∙ drop-stamped gone 1 es)
      ∙ later-stamped seq (1 + gone) (drop gone es)
      ∙ ap (drop (seq + 1 - (1 + gone))) (sym (drop-stamped gone 1 es))
      ∙ drop-drop (seq + 1 - (1 + gone)) gone log
      ∙ ap (λ k. drop k log) (omega (arith, length-stamped 1 es))
