-- ===== src/Hdlc/Framing/Tests.antt =====
-- Runs of the framing of openaisg/hdlc.py, with the bytes of the scan in docs/protocol.md.
use openaisg.Common.{◌≡◌, refl, [], ◌∷◌, ◌++◌, some, Bytes}
use openaisg.Hdlc.Crc.{fcs16}
use openaisg.Hdlc.Framing.{
  Frame, yields, raises, stuff, unstuff, frame_body, build_frame, split, parse_chunks, parse_frames,
  list_of, fcs_matches, frame_of,
}
use openaisg.Hdlc.Framing.RoundTrip.{wire, parse_frames-wire}

-- The XID parameters of the broadcast scan.
abbrev scan_payload : Bytes
scan_payload = 0x81 ∷ 0xf0 ∷ 4 ∷ 1 ∷ 0 ∷ 3 ∷ 0 ∷ []

abbrev scan_frame : Frame
scan_frame = record { addr = 0xff; ctrl = 0xbf; payload = scan_payload }

abbrev scan_bytes : Bytes
scan_bytes = 0x7e ∷ 0xff ∷ 0xbf ∷ 0x81 ∷ 0xf0 ∷ 4 ∷ 1 ∷ 0 ∷ 3 ∷ 0 ∷ 0xa6 ∷ 0x58 ∷ 0x7e ∷ []

-- The capture in the document.
build_frame_scan : build_frame 0xff 0xbf scan_payload ≡ scan_bytes
unfolding build_frame frame_body stuff fcs16
build_frame_scan = refl

-- A bad check sequence raises, and loses the frame before it in a list.
parse_frames_corrupt :
    parse_frames (scan_bytes ++ (0xff ∷ 0xbf ∷ 1 ∷ 2 ∷ 3 ∷ 0x7e ∷ [])) ≡ yields scan_frame raises
unfolding parse_frames parse_chunks split unstuff fcs_matches fcs16 frame_of
parse_frames_corrupt = refl

parse_frames-wire_example :
    list_of (parse_frames (wire (scan_frame ∷ scan_frame ∷ [])))
    ≡ some (scan_frame ∷ scan_frame ∷ [])
parse_frames-wire_example = parse_frames-wire (scan_frame ∷ scan_frame ∷ [])
