-- ===== src/Link/Exchange/Retransmission.antt =====
-- When `AisgLink.exchange` of openaisg/link.py sends its command again.
use openaisg.Common.{
  ℕ, ◌≡◌, ◌≢◌, refl, arith, true, false, List, ◌==◌, ==_iff, All, Any, All-of, Bool-cases, inl, inr,
  ◌⊎◌,
}
use openaisg.Hdlc.Framing.{Frame}
use openaisg.Hdlc.Control.{Kind, kind, nr_of, i_frame, rej, srej, u_frame}
use openaisg.Link.State.{Link, peer_of}
use openaisg.Link.Exchange.{
  Call, Progress, Handled, goes_on, returned, reset_by, handle_kind, brought_up, handle, Round,
  after_read, poll, is_lost, turn, loop, start, exchange,
}
use openaisg.Link.Exchange.Invariant.{commands}
use openaisg.Link.Exchange.Rules.{handle_all_rule, loop_rule, Turns}

-- `n` commands were written.
abbrev Wrote : ℕ → Progress → Type 0
Wrote n s = commands s.effects ≡ n

-- The command is acknowledged, and was written `n` times.
abbrev Settled : ℕ → Progress → Type 0
Settled n s = (s.acked ≡ true) × Wrote n s

module _ (n : ℕ) (call : Call) where
  abbrev Kept : Handled → Type 0
  Kept (goes_on s) = Settled n s
  Kept (returned payload s) = Wrote n s
  Kept (reset_by why s) = Wrote n s

  handle_kind-Kept :
      (k : Kind) (f : Frame) (clock : ℕ) (s : Progress)
      → Settled n s
      → Kept (handle_kind call k f clock s)
  unfolding handle_kind commands
  handle_kind-Kept i_frame f clock s h = ground arith
  handle_kind-Kept _ f clock s h = ground arith

  brought_up-Settled :
      (k : Kind) (ctrl : ℕ) (s : Progress) → Settled n s → Settled n (brought_up k ctrl s)
  unfolding brought_up
  brought_up-Settled u_frame ctrl s h = h
  brought_up-Settled _ ctrl s h = ground arith

  handle-Kept : (f : Frame) (clock : ℕ) (s : Progress) → Settled n s → Kept (handle call f clock s)
  unfolding handle
  handle-Kept f clock s h = elim (Bool-cases (f.addr == call.addr)) [
    | inl mine ↦
        rw mine
          (handle_kind-Kept (kind f.ctrl) f clock _ (brought_up-Settled (kind f.ctrl) f.ctrl s h))
    | inr other ↦ rw other h
  ]

  after_read-Kept :
      (now : ℕ) (x : Handled)
      → Kept x
      → Turns (Settled n) (λ o s. Wrote n s) (after_read call now x)
  unfolding after_read is_lost poll commands
  after_read-Kept now (returned payload s) k = k
  after_read-Kept now (reset_by why s) k = k
  after_read-Kept now (goes_on s) k = ground arith

-- In the loop of the exchange, once the command is acknowledged it is not written again, whatever
-- is received and however long the loop goes on.
pub loop_never_resends_acked :
    (call : Call) (s : Progress) (rounds : List Round)
    → s.acked ≡ true
    → commands (loop call s rounds).1.effects ≡ commands s.effects
unfolding turn
loop_never_resends_acked call s rounds acked =
    let n : ℕ = commands s.effects in
    loop_rule call Any (Settled n) (λ o s'. Wrote n s') (λ s' h. h.1)
      (λ r s' b h. after_read-Kept n call r.now _ (
        handle_all_rule call Any (Settled n) (λ p s''. Wrote n s'') (λ w s''. Wrote n s'')
          (λ f clock s'' a h'. handle-Kept n call f clock s'' h') r.frames s'
          (All-of Any (λ x. tt) r.frames) h))
      rounds s (All-of Any (λ x. tt) rounds) (acked, refl)

-- A frame that does not ask for the command: from another address, a U-frame, or a frame that is no
-- REJ or SREJ and whose N(R) is not the number of the command.
abbrev Quiet : ℕ → ℕ → Frame × ℕ → Type 0
Quiet addr ns (f, clock) =
    (f.addr ≢ addr)
    ⊎ (kind f.ctrl ≡ u_frame)
    ⊎ ((kind f.ctrl ≢ rej) × (kind f.ctrl ≢ srej) × (nr_of f.ctrl ≢ ns))

abbrev pub QuietRound : ℕ → ℕ → Round → Type 0
QuietRound addr ns r = All (Quiet addr ns) r.frames

-- The command has the number `ns`, was written `n` times, and is not known to be missing.
abbrev Calm : ℕ → ℕ → Progress → Type 0
Calm n ns s = (s.missing ≡ false) × (s.sent_ns ≡ ns) × Wrote n s

module _ (n ns : ℕ) (call : Call) where
  abbrev Calmly : Handled → Type 0
  Calmly (goes_on s) = Calm n ns s
  Calmly (returned payload s) = Wrote n s
  Calmly (reset_by why s) = Wrote n s

  handle_kind-Calmly :
      (k : Kind) (f : Frame) (clock : ℕ) (s : Progress)
      → k ≢ rej
      → k ≢ srej
      → Calm n ns s
      → Calmly (handle_kind call k f clock s)
  unfolding handle_kind commands
  handle_kind-Calmly i_frame f clock s a b h = ground arith
  handle_kind-Calmly rej f clock s a b h = absurd (a refl)
  handle_kind-Calmly srej f clock s a b h = absurd (b refl)
  handle_kind-Calmly _ f clock s a b h = ground arith

  brought_up-Calm :
      (k : Kind) (ctrl : ℕ) (s : Progress)
      → nr_of ctrl ≢ ns
      → Calm n ns s
      → Calm n ns (brought_up k ctrl s)
  unfolding brought_up
  brought_up-Calm u_frame ctrl s a h = h
  brought_up-Calm _ ctrl s a h = ground arith

  brought_up_u : (ctrl : ℕ) (s : Progress) → brought_up u_frame ctrl s ≡ s
  unfolding brought_up
  brought_up_u ctrl s = refl

  handle-Calmly :
      (f : Frame) (clock : ℕ) (s : Progress)
      → Quiet call.addr ns (f, clock)
      → Calm n ns s
      → Calmly (handle call f clock s)
  unfolding handle
  handle-Calmly f clock s q h = elim (Bool-cases (f.addr == call.addr)) [
    | inr other ↦ rw other h
    | inl mine ↦ rw mine (elim q [
      | inl other ↦ absurd (other ((==_iff f.addr call.addr).0 mine))
      | inr (inl u) ↦
          rw u (handle_kind-Calmly u_frame f clock _ (λ e. cc) (λ e. cc) (rw brought_up_u h))
      | inr (inr (a, b, c)) ↦
          handle_kind-Calmly (kind f.ctrl) f clock _ a b
            (brought_up-Calm (kind f.ctrl) f.ctrl s c h)
    ])
  ]

  after_read-Calmly :
      (now : ℕ) (x : Handled)
      → Calmly x
      → Turns (Calm n ns) (λ o s. Wrote n s) (after_read call now x)
  unfolding after_read is_lost poll commands
  after_read-Calmly now (returned payload s) k = k
  after_read-Calmly now (reset_by why s) k = k
  after_read-Calmly now (goes_on s) k = ground arith

-- If no frame that is received asks for the command, by an N(R) that is its number or by an REJ or
-- SREJ from the address, the exchange writes the command exactly once, however long it lasts:
-- silence is never answered by a retransmission.
pub exchange_once :
    (call : Call) (link : Link) (now : ℕ) (rounds : List Round)
    → All (QuietRound call.addr (peer_of link.peers call.addr).vs) rounds
    → commands (exchange call link now rounds).2 ≡ 1
unfolding exchange turn start commands
exchange_once call link now rounds quiet =
    let ns : ℕ = (peer_of link.peers call.addr).vs in
    loop_rule call (QuietRound call.addr ns) (Calm 1 ns) (λ o s. Wrote 1 s) (λ s h. h.2)
      (λ r s q h. after_read-Calmly 1 ns call r.now _ (
        handle_all_rule call (Quiet call.addr ns) (Calm 1 ns) (λ p s'. Wrote 1 s')
          (λ w s'. Wrote 1 s') (λ f clock s' a h'. handle-Calmly 1 ns call f clock s' a h') r.frames
          s q h))
      rounds _ quiet (refl, refl, refl)
