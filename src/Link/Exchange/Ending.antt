-- ===== src/Link/Exchange/Ending.antt =====
-- When `AisgLink.exchange` of openaisg/link.py ends.
use openaisg.Common.{
  ℕ, ◌+◌, ◌≡◌, ◌≢◌, ◌<◌, ◌≤◌, refl, arith, List, [], ◌∷◌, ltb, ◌==◌, if◌then◌else◌, All, Bool-cases,
  inl, inr,
}
use openaisg.Hdlc.Framing.{Frame}
use openaisg.Hdlc.Control.{Kind, kind, ns_of, i_frame, u_frame}
use openaisg.Link.State.{Link}
use openaisg.Link.Exchange.{
  Verdict, accept, indication, unexpected, Call, Progress, Handled, goes_on, returned, reset_by,
  resend, handle_verdict, handle_i, handle_kind, brought_up, handle, Round, waiting, Turn, ends,
  again, after_read, retransmit, poll, is_lost, turn, follow, loop, start, exchange,
}
use openaisg.Link.Exchange.Rules.{Handles, Turns, handle_all_rule}

-- The router takes no frame for an indication.
abbrev pub Plain : Call → Frame × ℕ → Type 0
Plain call (f, clock) = call.router f.payload ≢ indication

abbrev pub PlainRound : Call → Round → Type 0
PlainRound call r = All (Plain call) r.frames

-- The rounds that end after a time.
abbrev pub late_rounds : ℕ → List Round → ℕ
late_rounds deadline [] = 0
late_rounds deadline (r ∷ rs) = (if ltb deadline r.now then 1 else 0) + late_rounds deadline rs

-- The deadline stands, and at most `n` retransmissions are left.
abbrev Fixed : ℕ → ℕ → Progress → Type 0
Fixed deadline n s = (s.deadline ≡ deadline) × (s.retx_left ≤ n)

module _ (d n : ℕ) (call : Call) where
  handle_verdict-Fixed :
      (v : Verdict) (f : Frame) (clock : ℕ) (s : Progress)
      → v ≢ indication
      → Fixed d n s
      → Handles (Fixed d n) (λ p s'. Unit {0}) (λ w s'. Unit {0}) (handle_verdict call f clock v s)
  unfolding handle_verdict
  handle_verdict-Fixed accept f clock s a h = tt
  handle_verdict-Fixed indication f clock s a h = absurd (a refl)
  handle_verdict-Fixed unexpected f clock s a h = h

  handle_i-Fixed :
      (f : Frame) (clock : ℕ) (s : Progress)
      → Plain call (f, clock)
      → Fixed d n s
      → Handles (Fixed d n) (λ p s'. Unit {0}) (λ w s'. Unit {0}) (handle_i call f clock s)
  unfolding handle_i
  handle_i-Fixed f clock s a h = elim (Bool-cases (ns_of f.ctrl == s.peer.vr)) [
    | inl e ↦ rw e (handle_verdict-Fixed (call.router f.payload) f clock _ a h)
    | inr e ↦ rw e h
  ]

  handle_kind-Fixed :
      (k : Kind) (f : Frame) (clock : ℕ) (s : Progress)
      → Plain call (f, clock)
      → Fixed d n s
      → Handles (Fixed d n) (λ p s'. Unit {0}) (λ w s'. Unit {0}) (handle_kind call k f clock s)
  unfolding handle_kind
  handle_kind-Fixed i_frame f clock s a h = handle_i-Fixed f clock s a h
  handle_kind-Fixed _ f clock s a h = ground arith

  brought_up-Fixed :
      (k : Kind) (ctrl : ℕ) (s : Progress) → Fixed d n s → Fixed d n (brought_up k ctrl s)
  unfolding brought_up
  brought_up-Fixed u_frame ctrl s h = h
  brought_up-Fixed _ ctrl s h = ground arith

  handle-Fixed :
      (f : Frame) (clock : ℕ) (s : Progress)
      → Plain call (f, clock)
      → Fixed d n s
      → Handles (Fixed d n) (λ p s'. Unit {0}) (λ w s'. Unit {0}) (handle call f clock s)
  unfolding handle
  handle-Fixed f clock s a h = elim (Bool-cases (f.addr == call.addr)) [
    | inl mine ↦
        rw mine
          (handle_kind-Fixed (kind f.ctrl) f clock _ a (brought_up-Fixed (kind f.ctrl) f.ctrl s h))
    | inr other ↦ rw other h
  ]

  -- A pass that goes on behind the deadline has used up a retransmission.
  abbrev Spent : ℕ → Progress → Type 0
  Spent now s = (s.deadline ≡ d) × (s.retx_left + (if ltb d now then 1 else 0) ≤ n)

  after_read-Spent :
      (now : ℕ) (x : Handled)
      → Handles (Fixed d n) (λ p s'. Unit {0}) (λ w s'. Unit {0}) x
      → Turns (Spent now) (λ o s'. o ≢ waiting) (after_read call now x)
  unfolding after_read is_lost retransmit poll resend
  after_read-Spent now (returned payload s) k = λ e. cc
  after_read-Spent now (reset_by why s) k = λ e. cc
  after_read-Spent now (goes_on s) k = elim (Bool-cases (is_lost now s)) [
    | inl lost ↦ rw lost (ground arith)
    | inr here ↦ rw here (elim (Bool-cases (ltb s.deadline now)) [
      | inl late ↦ rw late (λ e. cc)
      | inr early ↦ rw early (ground arith)
    ])
  ]

  turn-Spent :
      (r : Round) (s : Progress)
      → PlainRound call r
      → Fixed d n s
      → Turns (Spent r.now) (λ o s'. o ≢ waiting) (turn call r s)
  unfolding turn
  turn-Spent r s plain h = after_read-Spent r.now _ (
      handle_all_rule call (Plain call) (Fixed d n) (λ p s'. Unit {0}) (λ w s'. Unit {0})
        handle-Fixed r.frames s plain h)

loop_ends :
    (d : ℕ) (call : Call) (rounds : List Round) (n : ℕ) (s : Progress)
    → All (PlainRound call) rounds
    → Fixed d n s
    → n < late_rounds d rounds
    → (loop call s rounds).0 ≢ waiting
unfolding loop
loop_ends d call [] n s plain h late = absurd (omega arith)
loop_ends d call (r ∷ rs) n s plain h late =
    go (turn call r s) (turn-Spent d n call r s plain.0 h) (loop_ends d call rs)
  where
    go :
        (t : Turn)
        → Turns (Spent d n call r.now) (λ o s'. o ≢ waiting) t
        → ((m : ℕ) (s' : Progress)
            → All (PlainRound call) rs
            → Fixed d m s'
            → m < late_rounds d rs
            → (loop call s' rs).0 ≢ waiting)
        → (follow t (λ s'. loop call s' rs)).0 ≢ waiting
    go (ends outcome s') k next = k
    go (again s') k next = next s'.retx_left s' plain.1 (k.0, omega arith) (omega (arith, k.1))

-- If the router takes no payload that is received for an indication, the exchange has ended once
-- four of its passes ended behind its timeout, counted from the first write.
pub exchange_ends :
    (call : Call) (link : Link) (now : ℕ) (rounds : List Round)
    → All (PlainRound call) rounds
    → 4 ≤ late_rounds (now + call.timeout) rounds
    → (exchange call link now rounds).0 ≢ waiting
unfolding exchange start
exchange_ends call link now rounds plain late =
    loop_ends (now + call.timeout) call rounds 3 _ plain (refl, omega arith) (omega arith)
