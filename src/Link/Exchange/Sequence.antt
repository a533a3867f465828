-- ===== src/Link/Exchange/Sequence.antt =====
-- How `AisgLink.exchange` of openaisg/link.py moves the sequence numbers of its peer, how often it
-- sends the command, and what it leaves alone.
use openaisg.Common.{ℕ, ◌+◌, ◌%◌, ◌<◌, ◌≤◌, ◌≡◌, arith, false, List, if◌then◌else◌, Bytes, ◌⊎◌}
use openaisg.Common.Bits.{and_seven}
use openaisg.Hdlc.Framing.{build_frame}
use openaisg.Hdlc.Control.{i_ctrl}
use openaisg.Link.State.{Peer, Stats, Link, peer_of}
use openaisg.Link.State.Laws.{peer_of-with_peer}
use openaisg.Link.Exchange.{
  Call, Progress, Round, Outcome, response, link_reset, timed_out, waiting, loop, start, updated,
  exchange,
}
use openaisg.Link.Exchange.Invariant.{
  commands, AllCommands, IsSound, IsCounted, EndsWith, loop-EndsWith,
}

start-IsSound :
    (call : Call) (p : Peer) (stats : Stats) (now : ℕ)
    → p.vr < 8
    → IsSound p.vs
        (build_frame call.addr (i_ctrl p.vs p.vr) call.message)
        stats.retx
        (start call p stats now)
unfolding start commands
start-IsSound call p stats now h = ground arith

-- How a peer stands after an exchange, by its outcome.
abbrev pub Moved : Outcome → Peer → Peer → Type 0
Moved (response payload) p p' = (p'.vs ≡ (p.vs + 1) % 8) × (p'.vr < 8)
Moved (link_reset why) p p' = (p'.vs ≡ 0) × (p'.vr ≡ 0) × (p'.connected ≡ false)
Moved (timed_out acked polls) p p' =
    (p'.vs ≡ (if acked then (p.vs + 1) % 8 else p.vs)) × (p'.vr < 8)
Moved waiting p p' = ((p'.vs ≡ p.vs) ⊎ (p'.vs ≡ (p.vs + 1) % 8)) × (p'.vr < 8)

Moved-EndsWith :
    (outcome : Outcome) (p : Peer) (s : Progress) (frame : Bytes) (retx : ℕ)
    → EndsWith p.vs frame retx outcome s
    → Moved outcome p s.peer
Moved-EndsWith (response payload) p s frame retx e = ground (arith, and_seven (p.vs + 1))
Moved-EndsWith (link_reset why) p s frame retx e = ground arith
Moved-EndsWith (timed_out acked polls) p s frame retx e = ground (arith, and_seven (p.vs + 1))
Moved-EndsWith waiting p s frame retx e = ground (arith, and_seven (p.vs + 1))

-- Where V(R) of the peer is below 8, an exchange moves its sequence numbers as its outcome says:
-- V(S) is one higher modulo 8 after a response and after a timeout whose command was acknowledged,
-- unchanged after a timeout whose command was not, and unchanged or one higher while it waits; V(R)
-- stays below 8; a `LinkReset` leaves both numbers 0 and the peer not connected.
pub exchange-Moved :
    (call : Call) (link : Link) (now : ℕ) (rounds : List Round)
    → (peer_of link.peers call.addr).vr < 8
    → let (outcome, link', effects) = exchange call link now rounds in
      Moved outcome (peer_of link.peers call.addr) (peer_of link'.peers call.addr)
unfolding exchange updated
exchange-Moved call link now rounds h =
    let p : Peer = peer_of link.peers call.addr in
    let s : Progress = (loop call (start call p link.stats now) rounds).1 in
    rw peer_of-with_peer (
      Moved-EndsWith _ p s _ link.stats.retx (
        loop-EndsWith p.vs _ link.stats.retx call rounds _ (start-IsSound call p link.stats now h)))

IsCounted-EndsWith :
    (outcome : Outcome) (ns : ℕ) (s : Progress) (frame : Bytes) (retx : ℕ)
    → EndsWith ns frame retx outcome s
    → IsCounted frame retx s
IsCounted-EndsWith (response payload) ns s frame retx e = e.2
IsCounted-EndsWith (link_reset why) ns s frame retx e = e.3
IsCounted-EndsWith (timed_out acked polls) ns s frame retx e = record {
  all = e.1.all;
  written = e.1.written;
  spare = e.1.spare;
  counted = e.1.counted;
}
IsCounted-EndsWith waiting ns s frame retx e = record {
  all = e.all;
  written = e.written;
  spare = e.spare;
  counted = e.counted;
}

-- Where V(R) of the peer is below 8, an exchange writes its command at least once and at most four
-- times, each time with the same bytes, and counts every write but the first as a retransmission.
pub exchange-commands :
    (call : Call) (link : Link) (now : ℕ) (rounds : List Round)
    → (peer_of link.peers call.addr).vr < 8
    → let (outcome, link', effects) = exchange call link now rounds in
      let p = peer_of link.peers call.addr in
      AllCommands (build_frame call.addr (i_ctrl p.vs p.vr) call.message) effects
      × (1 ≤ commands effects)
      × (commands effects ≤ 4)
      × (link'.stats.retx + 1 ≡ link.stats.retx + commands effects)
unfolding exchange
exchange-commands call link now rounds h =
    let p : Peer = peer_of link.peers call.addr in
    let c = IsCounted-EndsWith _ p.vs _ _ link.stats.retx (
      loop-EndsWith p.vs _ link.stats.retx call rounds _ (start-IsSound call p link.stats now h)) in
    (
      c.all,
      omega (arith, c.written, c.spare),
      omega (arith, c.written),
      omega (arith, c.written, c.counted),
    )
