-- ===== src/Link/Exchange/Tests.antt =====
-- Runs of openaisg/link.py's `AisgLink.exchange` with one device at address 3.
use openaisg.Common.{
  ℕ, ◌+◌, ◌≡◌, ◌≢◌, ◌≤◌, refl, arith, true, false, List, [], ◌∷◌, Bytes, All, inr, get_or, ◌==◌,
  if◌then◌else◌,
}
use openaisg.Hdlc.Framing.{Frame, build_frame}
use openaisg.Hdlc.Control.{kind, ns_of, nr_of, i_ctrl, rr_ctrl}
use openaisg.Link.State.{no_stats, Link, peer_of}
use openaisg.Link.Exchange.{
  Verdict, accept, indication, Call, command, Progress, Round, response, timed_out, waiting,
  apply_ack, note_missing, resend, handle_verdict, handle_i, handle_kind, brought_up, handle,
  handle_all, retransmit, poll, is_lost, after_read, turn, loop, start, exchange,
}
use openaisg.Link.Exchange.Invariant.{commands, AllCommands}
use openaisg.Link.Exchange.Sequence.{Moved, exchange-Moved, exchange-commands}
use openaisg.Link.Exchange.Retransmission.{QuietRound, loop_never_resends_acked, exchange_once}
use openaisg.Link.Exchange.Ending.{exchange_ends}
use openaisg.Link.Exchange.Response.{Some, Answers, exchange_response}
use openaisg.Link.Exchange.Foreign.{rounds_from, exchange-foreign}

-- A router that takes alarms for indications, and every other payload for the response.
abbrev alarm_router : Bytes → Verdict
alarm_router payload = if get_or payload 0 0 == 7 then indication else accept

abbrev call : Call
call = record {
  addr = 3;
  message = 0x34 ∷ 0 ∷ 0 ∷ [];
  timeout = 3000;
  poll_interval = 100;
  router = alarm_router;
}

abbrev link : Link
link = record {
  peers =
      (5, record { vs = 2; vr = 4; connected = true })
      ∷ (3, record { vs = 7; vr = 0; connected = true })
      ∷ [];
  stats = no_stats;
}

abbrev from_device : ℕ → Bytes → Frame
from_device ctrl payload = record { addr = 3; ctrl = ctrl; payload = payload }

abbrev tilt : Bytes
tilt = 0x34 ∷ 3 ∷ 0 ∷ 0 ∷ 0x2d ∷ 0 ∷ []

-- The device acknowledges the command, reports an alarm, and responds.
abbrev answered : List Round
answered =
    record { frames = (from_device (rr_ctrl 0 true) [], 50) ∷ []; now = 50 }
    ∷ record { frames = (from_device (i_ctrl 0 0) (7 ∷ 1 ∷ 0 ∷ 2 ∷ []), 160) ∷ []; now = 160 }
    ∷ record { frames = (from_device (i_ctrl 1 0) tilt, 270) ∷ []; now = 270 }
    ∷ []

-- The device lost the command and asks for it after a second.
abbrev asked_again : List Round
asked_again =
    record { frames = (from_device (rr_ctrl 7 true) [], 1100) ∷ []; now = 1100 }
    ∷ record { frames = (from_device (i_ctrl 0 0) tilt, 1200) ∷ []; now = 1200 }
    ∷ []

-- Nobody answers.
abbrev silence : List Round
silence =
    record { frames = []; now = 1500 }
    ∷ record { frames = []; now = 3001 }
    ∷ record { frames = []; now = 3002 }
    ∷ record { frames = []; now = 3003 }
    ∷ record { frames = []; now = 3004 }
    ∷ []

exchange-answered : (exchange call link 0 answered).0 ≡ response tilt
unfolding exchange start loop turn handle_all handle handle_kind handle_i handle_verdict brought_up
    apply_ack note_missing after_read is_lost poll peer_of kind ns_of nr_of i_ctrl rr_ctrl
exchange-answered = refl

exchange-silence : (exchange call link 0 silence).0 ≡ timed_out false 1
unfolding exchange start loop turn handle_all after_read is_lost poll peer_of
exchange-silence = refl

exchange-Moved_example :
    let (outcome, link', effects) = exchange call link 0 answered in
    Moved outcome (peer_of link.peers 3) (peer_of link'.peers 3)
unfolding peer_of
exchange-Moved_example = exchange-Moved call link 0 answered (omega arith)

-- A device at address 5 talks between the frames of the one that is asked.
abbrev babble : List Round
babble =
    record {
      frames = (record { addr = 5; ctrl = rr_ctrl 1 true; payload = [] }, 10) ∷ [];
      now = 20;
    }
    ∷ answered

exchange-foreign_example :
    let (outcome, link', effects) = exchange call link 0 babble in
    exchange call link 0 (rounds_from 3 babble)
    ≡ (outcome, record link' { stats = record link'.stats { foreign = 0 } }, effects)
exchange-foreign_example = exchange-foreign call link 0 babble

exchange-commands_example :
    let (outcome, link', effects) = exchange call link 0 asked_again in
    AllCommands (build_frame 3 (i_ctrl 7 0) (0x34 ∷ 0 ∷ 0 ∷ [])) effects
    × (1 ≤ commands effects)
    × (commands effects ≤ 4)
    × (link'.stats.retx + 1 ≡ 0 + commands effects)
unfolding peer_of
exchange-commands_example = exchange-commands call link 0 asked_again (omega arith)

commands-asked_again : commands (exchange call link 0 asked_again).2 ≡ 2
unfolding exchange start loop turn handle_all handle handle_kind handle_i handle_verdict brought_up
    apply_ack note_missing after_read is_lost poll retransmit resend peer_of kind ns_of nr_of i_ctrl
    rr_ctrl commands
commands-asked_again = refl

-- An exchange whose command was acknowledged, in the middle of its loop.
abbrev acked : Progress
acked = record {
  peer = record { vs = 0; vr = 0; connected = true };
  stats = no_stats;
  sent_ns = 7;
  frame = 1 ∷ [];
  acked = true;
  missing = false;
  polls = 2;
  deadline = 3000;
  retx_at = 1000;
  retx_left = 3;
  effects = command (1 ∷ []) ∷ [];
}

loop_never_resends_acked_example : commands (loop call acked asked_again).1.effects ≡ 1
unfolding commands
loop_never_resends_acked_example = loop_never_resends_acked call acked asked_again refl

answered_Quiet : All (QuietRound 3 7) answered
unfolding kind nr_of rr_ctrl i_ctrl
answered_Quiet = (
  (inr (inr ((λ e. cc), (λ e. cc), λ e. omega (arith, e))), tt),
  (
    (inr (inr ((λ e. cc), (λ e. cc), λ e. omega (arith, e))), tt),
    ((inr (inr ((λ e. cc), (λ e. cc), λ e. omega (arith, e))), tt), tt),
  ),
)

exchange_once_example : commands (exchange call link 0 answered).2 ≡ 1
unfolding peer_of
exchange_once_example = exchange_once call link 0 answered answered_Quiet

exchange_ends_example : (exchange call link 0 silence).0 ≢ waiting
exchange_ends_example =
    exchange_ends call link 0 silence (tt, (tt, (tt, (tt, (tt, tt))))) (omega arith)

exchange_response_example : Some (λ r. Some (Answers call tilt) r.frames) answered
exchange_response_example = exchange_response call link 0 answered tilt exchange-answered
