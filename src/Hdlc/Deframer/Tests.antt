-- ===== src/Hdlc/Deframer/Tests.antt =====
-- Runs of openaisg/hdlc.py's `Deframer`.
use openaisg.Common.{◌+◌, ◌≤◌, ◌≡◌, refl, arith, inl, List, [], ◌∷◌, some, Bytes, length}
use openaisg.Hdlc.Crc.{fcs16}
use openaisg.Hdlc.Framing.{Frame, stuff, unstuff, frame_body, build_frame, fcs_matches, frame_of}
use openaisg.Hdlc.Framing.RoundTrip.{wire}
use openaisg.Hdlc.Deframer.{Deframer, empty, judge, find, feed_pass, feed_loop, feed, feed_all}
use openaisg.Hdlc.Deframer.Receiver.{hunting, hear}
use openaisg.Hdlc.Deframer.Contract.{feed-hear}
use openaisg.Hdlc.Deframer.Wire.{FrameFits}
use openaisg.Hdlc.Deframer.Delivery.{concat, feed_all-wire}
use openaisg.Hdlc.Deframer.Bounded.{IsCapped, feed_bounded}

abbrev frame : Frame
frame = record { addr = 3; ctrl = 0x11; payload = [] }

-- The bytes of the frame, and two cuts of them.
abbrev bytes : Bytes
bytes = 0x7e ∷ 3 ∷ 0x11 ∷ 0x27 ∷ 0x24 ∷ 0x7e ∷ []

abbrev chunks : List Bytes
chunks = (0x7e ∷ 3 ∷ []) ∷ (0x11 ∷ 0x27 ∷ 0x24 ∷ []) ∷ (0x7e ∷ []) ∷ []

build_frame-bytes : build_frame 3 0x11 [] ≡ bytes
unfolding build_frame frame_body stuff fcs16
build_frame-bytes = refl

-- Two partial reads deliver nothing, and the last one delivers the frame.
feed_all-chunks :
    feed_all (empty 64) chunks
    ≡ some (record { buf = 0x7e ∷ []; max_frame = 64; fcs_errors = 0; overruns = 0 }, frame ∷ [])
unfolding feed_all feed feed_loop feed_pass find judge unstuff fcs_matches frame_of fcs16
feed_all-chunks = refl

-- A partial frame over the limit loses its flag and no other byte.
feed_over :
    feed (empty 2) (0x7e ∷ 1 ∷ 2 ∷ 3 ∷ [])
    ≡ some (record { buf = 1 ∷ 2 ∷ 3 ∷ []; max_frame = 2; fcs_errors = 0; overruns = 1 }, [])
unfolding feed feed_loop feed_pass find
feed_over = refl

frame_fits : FrameFits 64 frame
unfolding stuff frame_body fcs16
frame_fits = omega arith

concat-chunks : concat chunks ≡ wire (frame ∷ [])
unfolding wire build_frame frame_body stuff fcs16
concat-chunks = refl

feed_all-wire_example :
    (d : Deframer) × (feed_all (empty 64) chunks ≡ some (d, frame ∷ []))
    × (d.fcs_errors ≡ 0)
    × (d.overruns ≡ 0)
feed_all-wire_example =
    feed_all-wire 64 chunks (frame ∷ []) ((λ e. cc), ((λ e. cc), ((λ e. cc), tt))) (frame_fits, tt)
      concat-chunks

feed-hear_example :
    (d' : Deframer) × (feed (empty 64) bytes ≡ some (d', (hear hunting bytes).frames))
    × (d'.fcs_errors ≡ 0 + (hear hunting bytes).errors)
    × (d'.max_frame ≡ 64)
feed-hear_example = feed-hear (empty 64) bytes

abbrev partial_frame : Deframer
partial_frame = record { buf = 0x7e ∷ 3 ∷ []; max_frame = 64; fcs_errors = 0; overruns = 0 }

feed_bounded_example :
    (d' : Deframer) × (out : List Frame) × (feed (empty 2) (0x7e ∷ 1 ∷ 2 ∷ 3 ∷ []) ≡ some (d', out))
    × IsCapped d'
    × (length d'.buf ≤ 2 + 4)
feed_bounded_example =
    feed_bounded (empty 2) (0x7e ∷ 1 ∷ 2 ∷ 3 ∷ []) (omega arith) (inl (omega arith))
