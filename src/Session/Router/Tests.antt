-- ===== src/Session/Router/Tests.antt =====
-- Runs of openaisg/session.py's `SerialTransport`.
use openaisg.Common.{◌≡◌, refl, List, [], ◌∷◌, Bytes}
use openaisg.Hdlc.Control.{kind, ns_of, nr_of, i_ctrl}
use openaisg.Link.State.{Link, no_stats, peer_of}
use openaisg.Link.Exchange.{
  Round, response, exchange, start, loop, turn, handle_all, handle, handle_kind, handle_i,
  handle_verdict, brought_up, apply_ack, note_missing, after_read, is_lost, poll,
}
use openaisg.Session.Router.{retap_router, transport_request}
use openaisg.Session.Router.Responses.{Carries, transport_request-Carries}

abbrev link : Link
link = record { peers = []; stats = no_stats }

-- The late response to a calibration, then the response to the request for the tilt.
abbrev rounds : List Round
rounds =
    record {
      frames = (record { addr = 3; ctrl = i_ctrl 0 1; payload = 0x31 ∷ 1 ∷ 0 ∷ 0 ∷ [] }, 50) ∷ [];
      now = 50;
    }
    ∷ record {
      frames =
          (record { addr = 3; ctrl = i_ctrl 1 1; payload = 0x34 ∷ 3 ∷ 0 ∷ 0 ∷ 0x2d ∷ 0 ∷ [] }, 160)
          ∷ [];
      now = 160;
    }
    ∷ []

abbrev tilt_reply : Bytes
tilt_reply = 0x34 ∷ 3 ∷ 0 ∷ 0 ∷ 0x2d ∷ 0 ∷ []

late_dropped : (transport_request 3 (0x34 ∷ 0 ∷ 0 ∷ []) 3000 link 0 rounds).0 ≡ response tilt_reply
unfolding transport_request retap_router exchange start loop turn handle_all handle handle_kind
    handle_i handle_verdict brought_up apply_ack note_missing after_read is_lost poll peer_of kind
    ns_of nr_of i_ctrl
late_dropped = refl

transport_request-Carries_example : Carries 0x34 tilt_reply
transport_request-Carries_example =
    transport_request-Carries 0x34 3 3000 0 (0 ∷ 0 ∷ []) tilt_reply link rounds late_dropped
