-- ===== src/Link/Exchange.antt =====
-- openaisg/link.py: `AisgLink.exchange`, one layer-7 request and response. Times are milliseconds.
-- What `_read_frames` returns and what the clock shows are given, round by round.
pub mod Rules
pub mod Invariant
pub mod Sequence
pub mod Retransmission
pub mod Ending
pub mod Response
pub mod Starvation
pub mod Foreign
mod Tests
use openaisg.Common.{
  ℕ, zero, suc, ◌+◌, ◌-◌, ◌*◌, Bool, true, false, not, ◌&&◌, ◌||◌, List, [], ◌∷◌, ◌++◌, Option,
  none, some, ltb, ◌==◌, if◌then◌else◌, Bytes, bit_and, min,
}
use openaisg.Hdlc.Framing.{Frame, build_frame}
use openaisg.Hdlc.Control.{
  Kind, kind, ns_of, nr_of, without_pf, i_ctrl, rr_ctrl, ctrl_dm, ctrl_frmr,
}
use openaisg.Hdlc.Control.{i_frame, rr, rnr, rej, srej, u_frame}
use openaisg.Link.State.{Peer, reset, Stats, Link, peer_of, with_peer}

-- A router's verdict on an inbound I-frame.
pub data Verdict : Type 0 where
  accept indication unexpected : Verdict

-- `accept_all`.
abbrev pub accept_all : Bytes → Verdict
accept_all payload = accept

-- The arguments of a call. `poll_interval` and `timeout` are in milliseconds.
pub record Call : Type 0 where
  pub addr : ℕ
  pub message : Bytes
  pub timeout : ℕ
  pub poll_interval : ℕ
  pub router : Bytes → Verdict

-- What the exchange does to the world: the command and the acknowledgements that it writes, and its
-- calls of `on_poll` and `on_indication`, where these are given.
pub data Effect : Type 0 where
  command : Bytes → Effect
  ack : Bytes → Effect
  polled : ℕ → Bool → Effect
  indicated : Bytes → Effect

-- The peer, the statistics, the local variables, and the effects so far, the latest first.
pub record Progress : Type 0 where
  pub peer : Peer
  pub stats : Stats
  pub sent_ns : ℕ
  pub frame : Bytes
  pub acked : Bool
  pub missing : Bool
  pub polls : ℕ
  pub deadline : ℕ
  pub retx_at : ℕ
  pub retx_left : ℕ
  pub effects : List Effect

pub data Why : Type 0 where
  dm : Why
  frmr : Bytes → Why

-- What a frame does to the exchange: it goes on, returns a payload, or raises `LinkReset`.
pub data Handled : Type 0 where
  goes_on : Progress → Handled
  returned : Bytes → Progress → Handled
  reset_by : Why → Progress → Handled

abbrev emit : Effect → Progress → Progress
emit e s = record s { effects = e ∷ s.effects }

-- `self._write(self._rr(addr, p.vr, poll))`.
abbrev send_rr : Call → Bool → Progress → Progress
send_rr call poll s = emit (ack (build_frame call.addr (rr_ctrl s.peer.vr poll) [])) s

-- `(sent_ns + 1) & 7`.
abbrev pub next_ns : ℕ → ℕ
next_ns ns = bit_and (ns + 1) 7

-- `acked = acked or self._apply_ack(p, ctrl, sent_ns)`.
unfoldable pub apply_ack : ℕ → Progress → Progress
apply_ack ctrl s =
    if s.acked
    then s
    else if nr_of ctrl == next_ns s.sent_ns
    then record s { peer = record s.peer { vs = next_ns s.sent_ns }; acked = true }
    else s

-- The test of `missing`.
unfoldable pub note_missing : ℕ → Progress → Progress
note_missing ctrl s = if nr_of ctrl == s.sent_ns then record s { missing = true } else s

pub resend : Progress → Progress
resend s =
    emit (command s.frame)
      (record s { retx_left = s.retx_left - 1; stats = record s.stats { retx = s.stats.retx + 1 } })

-- A U-frame.
pub handle_u : Frame → Progress → Handled
handle_u f s =
    let u = without_pf f.ctrl in
    let down = record s {
      peer = record (reset s.peer) { connected = false };
      stats = record s.stats { link_resets = s.stats.link_resets + 1 };
    } in
    if u == ctrl_dm
    then reset_by dm down
    else if u == ctrl_frmr
    then reset_by (frmr f.payload) down
    else goes_on s

-- An I-frame in sequence, after the router's verdict; `clock` is the time at which it is handled.
unfoldable pub handle_verdict : Call → Frame → ℕ → Verdict → Progress → Handled
handle_verdict call f clock accept s =
    let acked = send_rr call false s in
    returned f.payload
      (if s.acked then acked else record acked { peer = record s.peer { vs = next_ns s.sent_ns } })
handle_verdict call f clock indication s =
    goes_on (record (emit (indicated f.payload) (send_rr call true s)) {
      deadline = min (s.deadline + call.poll_interval * 4) (clock + call.timeout);
    })
handle_verdict call f clock unexpected s = goes_on (record (send_rr call true s) {
  stats = record s.stats { unexpected = s.stats.unexpected + 1 };
})

-- An I-frame.
unfoldable pub handle_i : Call → Frame → ℕ → Progress → Handled
unfolding handle_verdict
handle_i call f clock s =
    let ns = ns_of f.ctrl in
    if ns == s.peer.vr
    then handle_verdict call f clock (call.router f.payload)
        (record s { peer = record s.peer { vr = next_ns ns } })
    else goes_on
        (send_rr call true (record s { stats = record s.stats { dup_i = s.stats.dup_i + 1 } }))

-- A frame from the peer, by its kind; the state has `missing` and `acked` brought up to date.
unfoldable pub handle_kind : Call → Kind → Frame → ℕ → Progress → Handled
unfolding handle_i handle_u resend
handle_kind call i_frame f clock s = handle_i call f clock s
handle_kind call rr f clock s = goes_on s
handle_kind call rnr f clock s =
    goes_on (record s { stats = record s.stats { rnr = s.stats.rnr + 1 } })
handle_kind call rej f clock s =
    goes_on (if not s.acked && not (s.retx_left == 0) then resend s else s)
handle_kind call srej f clock s =
    goes_on (if not s.acked && not (s.retx_left == 0) then resend s else s)
handle_kind call u_frame f clock s = handle_u f s

-- The bookkeeping before the kinds are told apart, which passes over U-frames.
unfoldable pub brought_up : Kind → ℕ → Progress → Progress
unfolding apply_ack note_missing
brought_up u_frame ctrl s = s
brought_up _ ctrl s = apply_ack ctrl (note_missing ctrl s)

-- The body of the `for` loop.
unfoldable pub handle : Call → Frame → ℕ → Progress → Handled
unfolding handle_kind brought_up
handle call f clock s =
    if f.addr == call.addr
    then handle_kind call (kind f.ctrl) f clock (brought_up (kind f.ctrl) f.ctrl s)
    else goes_on (record s { stats = record s.stats { foreign = s.stats.foreign + 1 } })

-- The `for` loop over the frames of one read, each with the time at which it is handled.
unfoldable pub handle_all : Call → List (Frame × ℕ) → Progress → Handled
handle_all call [] s = goes_on s
handle_all call ((f, clock) ∷ fs) s = elim (handle call f clock s) [
  | goes_on s' ↦ handle_all call fs s'
  | returned payload s' ↦ returned payload s'
  | reset_by why s' ↦ reset_by why s'
]

-- One pass of the `while` loop: the frames of `_read_frames`, and the clock behind the `for` loop.
pub record Round : Type 0 where
  pub frames : List (Frame × ℕ)
  pub now : ℕ

-- How the exchange ends: it returns a response, raises `LinkReset`, raises `AisgTimeout` with
-- `acked` and `polls`, or has not ended with the rounds that are given.
pub data Outcome : Type 0 where
  response : Bytes → Outcome
  link_reset : Why → Outcome
  timed_out : Bool → ℕ → Outcome
  waiting : Outcome

-- A lost command is sent again.
pub retransmit : ℕ → Progress → Progress
unfolding resend
retransmit now s = record (resend s) { retx_at = now + 1000; missing = false }

-- The end of a pass that polls: `on_poll`, the sleep, and an RR.
unfoldable pub poll : Call → Progress → Progress
poll call s = send_rr call true (
    emit (polled (s.polls + 1) s.acked)
      (record s { polls = s.polls + 1; stats = record s.stats { polls = s.stats.polls + 1 } }))

-- The test for a retransmission.
unfoldable pub is_lost : ℕ → Progress → Bool
is_lost now s = not s.acked && s.missing && ltb s.retx_at now && not (s.retx_left == 0)

-- A pass of the `while` loop ends the exchange, or goes on.
pub data Turn : Type 0 where
  ends : Outcome → Progress → Turn
  again : Progress → Turn

-- The part of a pass behind the `for` loop.
unfoldable pub after_read : Call → ℕ → Handled → Turn
unfolding retransmit poll is_lost
after_read call now (returned payload s) = ends (response payload) s
after_read call now (reset_by why s) = ends (link_reset why) s
after_read call now (goes_on s) =
    if is_lost now s
    then again (retransmit now s)
    else if ltb s.deadline now
    then ends (timed_out s.acked s.polls) s
    else again (poll call s)

unfoldable pub turn : Call → Round → Progress → Turn
unfolding handle_all after_read
turn call r s = after_read call r.now (handle_all call r.frames s)

-- What a pass comes to, where `rest` is the loop over the later rounds.
abbrev pub follow : Turn → (Progress → Outcome × Progress) → Outcome × Progress
follow (ends outcome s) rest = (outcome, s)
follow (again s) rest = rest s

-- The `while` loop over the rounds that are left.
unfoldable pub loop : Call → Progress → List Round → Outcome × Progress
loop call s [] = (waiting, s)
loop call s (r ∷ rs) = follow (turn call r s) (λ s'. loop call s' rs)

-- The exchange before its loop: the command is written.
unfoldable pub start : Call → Peer → Stats → ℕ → Progress
start call p stats now =
    let frame = build_frame call.addr (i_ctrl p.vs p.vr) call.message in
    record {
      peer = p;
      stats = stats;
      sent_ns = p.vs;
      frame = frame;
      acked = false;
      missing = false;
      polls = 0;
      deadline = now + call.timeout;
      retx_at = now + 1000;
      retx_left = 3;
      effects = command frame ∷ [];
    }

-- The link after a progress at an address.
pub updated : Link → ℕ → Progress → Link
updated link addr s = record { peers = with_peer link.peers addr s.peer; stats = s.stats }

-- `AisgLink.exchange`; `now` is the clock behind the first write.
unfoldable pub exchange : Call → Link → ℕ → List Round → Outcome × Link × List Effect
unfolding updated
exchange call link now rounds =
    let (outcome, s) =
      loop call (start call (peer_of link.peers call.addr) link.stats now) rounds in
    (outcome, updated link call.addr s, s.effects)
