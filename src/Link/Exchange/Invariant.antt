-- ===== src/Link/Exchange/Invariant.antt =====
-- What holds throughout `AisgLink.exchange` of openaisg/link.py: how the sequence numbers, the
-- acknowledgement and the retransmissions depend on one another.
use openaisg.Common.{
  ℕ, ◌+◌, ◌<◌, ◌≤◌, ◌≡◌, refl, arith, true, false, List, [], ◌∷◌, ltb, ◌==◌, if◌then◌else◌, Bytes,
  Any, All-of, Bool-cases, inl, inr,
}
use openaisg.Common.Bits.{and_seven}
use openaisg.Hdlc.Framing.{Frame}
use openaisg.Hdlc.Control.{Kind, kind, ns_of, i_frame, u_frame}
use openaisg.Link.Exchange.Rules.{handle_all_rule, loop_rule}
use openaisg.Link.Exchange.{
  Call, Effect, command, Progress, Handled, goes_on, returned, reset_by, next_ns, resend, handle_u,
  handle_i, handle_kind, brought_up, handle, handle_all, Why, Round, Outcome, response, link_reset,
  timed_out, waiting, retransmit, poll, is_lost, Turn, ends, again, after_read, turn, loop,
}

-- How often the command was written.
unfoldable pub commands : List Effect → ℕ
commands [] = 0
commands (command frame ∷ es) = commands es + 1
commands (_ ∷ es) = commands es

-- Each time the same bytes.
abbrev pub AllCommands : Bytes → List Effect → Type 0
AllCommands frame [] = Unit {0}
AllCommands frame (command bytes ∷ es) = (bytes ≡ frame) × AllCommands frame es
AllCommands frame (_ ∷ es) = AllCommands frame es

-- Of an exchange that began with V(S) = `ns`, the command `frame` and `retx` retransmissions.
pub record IsSound (ns : ℕ) (frame : Bytes) (retx : ℕ) (s : Progress) : Type 0 where
  pub number : s.sent_ns ≡ ns
  pub same : s.frame ≡ frame
  pub vs : s.peer.vs ≡ (if s.acked then next_ns ns else ns)
  pub vr : s.peer.vr < 8
  pub all : AllCommands frame s.effects
  pub written : commands s.effects + s.retx_left ≡ 4
  pub spare : s.retx_left ≤ 3
  pub counted : s.stats.retx + s.retx_left ≡ retx + 3

-- The part that survives a `LinkReset`, and the end with a response.
pub record IsCounted (frame : Bytes) (retx : ℕ) (s : Progress) : Type 0 where
  pub all : AllCommands frame s.effects
  pub written : commands s.effects + s.retx_left ≡ 4
  pub spare : s.retx_left ≤ 3
  pub counted : s.stats.retx + s.retx_left ≡ retx + 3

module _ (ns : ℕ) (frame : Bytes) (retx : ℕ) where
  abbrev Answered : Bytes → Progress → Type 0
  Answered payload s = (s.peer.vs ≡ next_ns ns) × (s.peer.vr < 8) × IsCounted frame retx s

  abbrev Reset : Why → Progress → Type 0
  Reset why s =
      (s.peer.vs ≡ 0) × (s.peer.vr ≡ 0) × (s.peer.connected ≡ false) × IsCounted frame retx s

  abbrev Keeps : Handled → Type 0
  Keeps (goes_on s) = IsSound ns frame retx s
  Keeps (returned payload s) = Answered payload s
  Keeps (reset_by why s) = Reset why s

  resend-IsSound :
      {s : Progress}
      → IsSound ns frame retx s
      → (s.retx_left == 0) ≡ false
      → IsSound ns frame retx (resend s)
  unfolding resend commands
  resend-IsSound h left = ground arith

  brought_up-IsSound :
      (k : Kind) (ctrl : ℕ) {s : Progress}
      → IsSound ns frame retx s
      → IsSound ns frame retx (brought_up k ctrl s)
  unfolding brought_up
  brought_up-IsSound u_frame ctrl h = h
  brought_up-IsSound _ ctrl h = ground arith

  handle_u-Keeps : (f : Frame) {s : Progress} → IsSound ns frame retx s → Keeps (handle_u f s)
  unfolding handle_u
  handle_u-Keeps f h = ground arith

  handle_i-Keeps :
      (call : Call) (f : Frame) (clock : ℕ) {s : Progress}
      → IsSound ns frame retx s
      → Keeps (handle_i call f clock s)
  unfolding handle_i commands
  handle_i-Keeps call f clock h = ground (arith, and_seven (ns_of f.ctrl + 1))

  handle_kind-Keeps :
      (call : Call) (k : Kind) (f : Frame) (clock : ℕ) {s : Progress}
      → IsSound ns frame retx s
      → Keeps (handle_kind call k f clock s)
  unfolding handle_kind commands
  handle_kind-Keeps call i_frame f clock h = handle_i-Keeps call f clock h
  handle_kind-Keeps call u_frame f clock h = handle_u-Keeps f h
  handle_kind-Keeps call _ f clock h = ground arith

  handle-Keeps :
      (call : Call) (f : Frame) (clock : ℕ) {s : Progress}
      → IsSound ns frame retx s
      → Keeps (handle call f clock s)
  unfolding handle
  handle-Keeps call f clock {s} h = elim (Bool-cases (f.addr == call.addr)) [
    | inl mine ↦
        rw mine
          (handle_kind-Keeps call (kind f.ctrl) f clock (brought_up-IsSound (kind f.ctrl) f.ctrl h))
    | inr other ↦ rw other (ground arith)
  ]

  handle_all-Keeps :
      (call : Call) (fs : List (Frame × ℕ)) (s : Progress)
      → IsSound ns frame retx s
      → Keeps (handle_all call fs s)
  handle_all-Keeps call fs s h =
      handle_all_rule call Any (IsSound ns frame retx) Answered Reset
        (λ f clock s' a h'. handle-Keeps call f clock h') fs s (All-of Any (λ x. tt) fs) h

  retransmit-IsSound :
      (now : ℕ) {s : Progress}
      → is_lost now s ≡ true
      → IsSound ns frame retx s
      → IsSound ns frame retx (retransmit now s)
  unfolding retransmit is_lost commands
  retransmit-IsSound now e h = ground arith

  poll-IsSound :
      (call : Call) {s : Progress} → IsSound ns frame retx s → IsSound ns frame retx (poll call s)
  unfolding poll commands
  poll-IsSound call h = ground arith

  -- What each way to end says of the state.
  abbrev pub EndsWith : Outcome → Progress → Type 0
  EndsWith (response payload) s = Answered payload s
  EndsWith (link_reset why) s = Reset why s
  EndsWith (timed_out acked polls) s = (s.acked ≡ acked) × IsSound ns frame retx s
  EndsWith waiting s = IsSound ns frame retx s

  abbrev TurnKeeps : Turn → Type 0
  TurnKeeps (ends outcome s) = EndsWith outcome s
  TurnKeeps (again s) = IsSound ns frame retx s

  after_read-TurnKeeps :
      (call : Call) (now : ℕ) (x : Handled) → Keeps x → TurnKeeps (after_read call now x)
  unfolding after_read
  after_read-TurnKeeps call now (returned payload s) k = k
  after_read-TurnKeeps call now (reset_by why s) k = k
  after_read-TurnKeeps call now (goes_on s) k = elim (Bool-cases (is_lost now s)) [
    | inl lost ↦ rw lost (retransmit-IsSound now lost k)
    | inr here ↦ rw here (elim (Bool-cases (ltb s.deadline now)) [
      | inl late ↦ rw late (refl, k)
      | inr early ↦ rw early (poll-IsSound call k)
    ])
  ]

  pub loop-EndsWith :
      (call : Call) (rounds : List Round) (s : Progress)
      → IsSound ns frame retx s
      → EndsWith (loop call s rounds).0 (loop call s rounds).1
  unfolding turn
  loop-EndsWith call rounds s h =
      loop_rule call Any (IsSound ns frame retx) EndsWith (λ s' h'. h')
        (λ r s' b h'. after_read-TurnKeeps call r.now _ (handle_all-Keeps call r.frames s' h'))
        rounds s (All-of Any (λ x. tt) rounds) h
