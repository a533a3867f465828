-- ===== src/Link/Exchange/Foreign.antt =====
-- What frames of other devices do to `AisgLink.exchange` of openaisg/link.py.
use openaisg.Common.{
  ℕ, ◌+◌, ◌≡◌, refl, ap, ◌∙◌, sym, arith, true, false, List, [], ◌∷◌, ◌==◌, if◌then◌else◌,
  Bool-cases, inl, inr,
}
use openaisg.Hdlc.Framing.{Frame}
use openaisg.Hdlc.Control.{ns_of, Kind, kind, i_frame, rr, rnr, rej, srej, u_frame}
use openaisg.Link.State.{Link, peer_of}
use openaisg.Link.Exchange.{
  Verdict, accept, indication, unexpected, Call, Progress, Handled, goes_on, returned, reset_by,
  apply_ack, note_missing, resend, handle_u, handle_verdict, handle_i, handle_kind, brought_up,
  handle, handle_all, Round, Outcome, retransmit, poll, is_lost, Turn, ends, again, after_read,
  turn, follow, loop, start, updated, exchange, next_ns,
}

-- The frames from an address, and the rounds with no other frame.
abbrev pub frames_from : ℕ → List (Frame × ℕ) → List (Frame × ℕ)
frames_from addr [] = []
frames_from addr ((f, clock) ∷ fs) =
    let rest = frames_from addr fs in if f.addr == addr then (f, clock) ∷ rest else rest

abbrev pub rounds_from : ℕ → List Round → List Round
rounds_from addr [] = []
rounds_from addr (r ∷ rs) = record r { frames = frames_from addr r.frames } ∷ rounds_from addr rs

-- Another count of foreign frames.
abbrev recount : ℕ → Progress → Progress
recount n s = record s { stats = record s.stats { foreign = n } }

abbrev recount_handled : ℕ → Handled → Handled
recount_handled n (goes_on s) = goes_on (recount n s)
recount_handled n (returned payload s) = returned payload (recount n s)
recount_handled n (reset_by why s) = reset_by why (recount n s)

abbrev recount_turn : ℕ → Turn → Turn
recount_turn n (ends outcome s) = ends outcome (recount n s)
recount_turn n (again s) = again (recount n s)

module _ (call : Call) (n : ℕ) where
  handle_verdict-recount :
      (f : Frame) (clock : ℕ) (v : Verdict) (s : Progress)
      → handle_verdict call f clock v (recount n s)
        ≡ recount_handled n (handle_verdict call f clock v s)
  unfolding handle_verdict
  handle_verdict-recount f clock accept s = ground arith
  handle_verdict-recount f clock indication s = refl
  handle_verdict-recount f clock unexpected s = refl

  handle_i-recount :
      (f : Frame) (clock : ℕ) (s : Progress)
      → handle_i call f clock (recount n s) ≡ recount_handled n (handle_i call f clock s)
  unfolding handle_i
  handle_i-recount f clock s = elim (Bool-cases (ns_of f.ctrl == s.peer.vr)) [
    | inl next ↦ rw next (
        handle_verdict-recount f clock (call.router f.payload)
          (record s { peer = record s.peer { vr = next_ns (ns_of f.ctrl) } }))
    | inr repeated ↦ rw repeated refl
  ]

  handle_kind-recount :
      (k : Kind) (f : Frame) (clock : ℕ) (s : Progress)
      → handle_kind call k f clock (recount n s) ≡ recount_handled n (handle_kind call k f clock s)
  unfolding handle_kind handle_u resend
  handle_kind-recount i_frame f clock s = handle_i-recount f clock s
  handle_kind-recount rr f clock s = refl
  handle_kind-recount rnr f clock s = refl
  handle_kind-recount rej f clock s = ground arith
  handle_kind-recount srej f clock s = ground arith
  handle_kind-recount u_frame f clock s = ground arith

  brought_up-recount :
      (k : Kind) (ctrl : ℕ) (s : Progress)
      → brought_up k ctrl (recount n s) ≡ recount n (brought_up k ctrl s)
  unfolding brought_up apply_ack note_missing
  brought_up-recount u_frame ctrl s = refl
  brought_up-recount i_frame ctrl s = ground arith
  brought_up-recount rr ctrl s = ground arith
  brought_up-recount rnr ctrl s = ground arith
  brought_up-recount rej ctrl s = ground arith
  brought_up-recount srej ctrl s = ground arith

  after_read-recount :
      (now : ℕ) (x : Handled)
      → after_read call now (recount_handled n x) ≡ recount_turn n (after_read call now x)
  unfolding after_read is_lost retransmit poll resend
  after_read-recount now (goes_on s) = ground arith
  after_read-recount now (returned payload s) = refl
  after_read-recount now (reset_by why s) = refl

  -- What the later frames make of what one comes to.
  abbrev and_later : List (Frame × ℕ) → Handled → Handled
  and_later fs x = elim x [
    | goes_on s' ↦ handle_all call fs s'
    | returned payload s' ↦ returned payload s'
    | reset_by why s' ↦ reset_by why s'
  ]

  frame-recount :
      (fs fs' : List (Frame × ℕ)) (x : Handled)
      → ((s : Progress)
          → handle_all call fs' (recount n s) ≡ recount_handled n (handle_all call fs s))
      → and_later fs' (recount_handled n x) ≡ recount_handled n (and_later fs x)
  frame-recount fs fs' (goes_on s) next = next s
  frame-recount fs fs' (returned payload s) next = refl
  frame-recount fs fs' (reset_by why s) next = refl

  handle-recount :
      (f : Frame) (clock : ℕ) (s : Progress)
      → (f.addr == call.addr) ≡ true
      → handle call f clock (recount n s) ≡ recount_handled n (handle call f clock s)
  unfolding handle
  handle-recount f clock s own = rw own (
      ap (handle_kind call (kind f.ctrl) f clock) (brought_up-recount (kind f.ctrl) f.ctrl s)
      ∙ handle_kind-recount (kind f.ctrl) f clock (brought_up (kind f.ctrl) f.ctrl s))

  handle-foreign :
      (f : Frame) (clock : ℕ) (s : Progress)
      → (f.addr == call.addr) ≡ false
      → handle call f clock s ≡ goes_on (recount (s.stats.foreign + 1) s)
  unfolding handle
  handle-foreign f clock s other = rw other refl

  handle_all-recount :
      (fs : List (Frame × ℕ)) (s : Progress)
      → handle_all call (frames_from call.addr fs) (recount n s)
        ≡ recount_handled n (handle_all call fs s)
  unfolding handle_all
  handle_all-recount [] s = refl
  handle_all-recount ((f, clock) ∷ fs) s = elim (Bool-cases (f.addr == call.addr)) [
    | inl own ↦ rw own (
        ap (and_later (frames_from call.addr fs)) (handle-recount f clock s own)
        ∙ frame-recount fs (frames_from call.addr fs) (handle call f clock s)
            (handle_all-recount fs))
    | inr other ↦ rw other (
        handle_all-recount fs (recount (s.stats.foreign + 1) s)
        ∙ sym (ap (λ y. recount_handled n (and_later fs y)) (handle-foreign f clock s other)))
  ]

  follow-recount :
      (rs rs' : List Round) (t : Turn)
      → ((s : Progress)
          → loop call (recount n s) rs' ≡ ((loop call s rs).0, recount n (loop call s rs).1))
      → follow (recount_turn n t) (λ s'. loop call s' rs')
        ≡ ((follow t (λ s'. loop call s' rs)).0, recount n (follow t (λ s'. loop call s' rs)).1)
  follow-recount rs rs' (ends outcome s) next = refl
  follow-recount rs rs' (again s) next = next s

  loop-recount :
      (rs : List Round) (s : Progress)
      → loop call (recount n s) (rounds_from call.addr rs)
        ≡ ((loop call s rs).0, recount n (loop call s rs).1)
  unfolding loop turn
  loop-recount [] s = refl
  loop-recount (r ∷ rs) s =
      ap (λ t. follow t (λ s'. loop call s' (rounds_from call.addr rs)))
        (ap (after_read call r.now) (handle_all-recount r.frames s)
          ∙ after_read-recount r.now (handle_all call r.frames s))
      ∙ follow-recount rs (rounds_from call.addr rs) (turn call r s) (loop-recount rs)

-- Frames of other addresses make no difference: an exchange whose rounds have them left out ends
-- the same way, with the same peers, the same effects in the same order and the same statistics,
-- but for the count of foreign frames, which it leaves as it was.
pub exchange-foreign :
    (call : Call) (link : Link) (now : ℕ) (rounds : List Round)
    → let (outcome, link', effects) = exchange call link now rounds in
      exchange call link now (rounds_from call.addr rounds) ≡ (
        outcome,
        record link' { stats = record link'.stats { foreign = link.stats.foreign } },
        effects,
      )
unfolding exchange updated start
exchange-foreign call link now rounds =
    ap (λ (x : Outcome × Progress). (x.0, updated link call.addr x.1, x.1.effects))
      (loop-recount call link.stats.foreign rounds
        (start call (peer_of link.peers call.addr) link.stats now))
