-- ===== src/Link/Manage/Tests.antt =====
-- Runs of the one-shot path of openaisg/link.py, with a device at address 2.
use openaisg.Common.{
  ℕ, suc, ◌≡◌, refl, true, false, List, [], ◌∷◌, none, some, get_or, ◌==◌, if◌then◌else◌, Bytes,
  All,
}
use openaisg.Hdlc.Crc.{fcs16}
use openaisg.Hdlc.Framing.{
  stuff, frame_body, build_frame, split, parse_chunks, parse_frames, list_of, unstuff, fcs_matches,
  frame_of,
}
use openaisg.Hdlc.Deframer.{empty}
use openaisg.Hdlc.Control.{without_pf}
use openaisg.Link.State.{Peers, peer_of, with_peer}
use openaisg.Link.Manage.{
  Serial, Station, Device, collect, parsed, xfer, command, brought_up, connect, hang_up,
  probe_address, scan_assigned,
}
use openaisg.Link.Manage.Connection.{fresh}
use openaisg.Link.Manage.Probing.{Probed, Elsewhere, probe_address-Probed}
use openaisg.Link.Manage.Sweep.{Found, scan_assigned-Found}

-- Whatever frame is sent to address 2 is answered by an UA; the port counts the frames.
abbrev ua_frame : Bytes
ua_frame = 0x7e ∷ 2 ∷ 0x73 ∷ 0xeb ∷ 0x7d ∷ 0x5d ∷ 0x7e ∷ []

abbrev port : Serial ℕ
port = record {
  transfer = λ frame n. (
    some (
        if get_or frame 1 0 == 2
        then record { clock = 10; chunk = ua_frame; in_waiting = false } ∷ []
        else []),
    suc n,
  );
}

-- Every frame is answered by noise.
abbrev noisy : Serial ℕ
noisy = record {
  transfer = λ frame n. (
    some (record { clock = 10; chunk = 0x7e ∷ 1 ∷ 2 ∷ 3 ∷ 4 ∷ 0x7e ∷ []; in_waiting = false } ∷ []),
    suc n,
  );
}

abbrev station : ℕ → Peers → Station ℕ
station n peers = record { port = n; peers = peers; deframer = empty 512; timeout = 1000 }

ua_frame_wire : build_frame 2 0x73 [] ≡ ua_frame
unfolding build_frame frame_body stuff fcs16
ua_frame_wire = refl

probe_address-Probed_example :
    let (r, st') = probe_address port 2 true (station 0 []) in
    Probed true 2 r [] st'.peers × Elsewhere 2 [] st'.peers
probe_address-Probed_example = probe_address-Probed port 2 true (station 0 [])

abbrev found : List Device
found = record { unique_id = []; device_type = none; vendor = none; address = some 2 } ∷ []

scan_assigned-Found_example : All (Found 1 3 ((2, fresh true) ∷ [])) found
scan_assigned-Found_example =
    scan_assigned-Found port 1 3 (station 0 []) (station 3 ((2, fresh true) ∷ [])) found (
      unfold scan_assigned probe_address hang_up connect brought_up command xfer parsed collect
        build_frame frame_body stuff fcs16 parse_frames parse_chunks split list_of unstuff
        fcs_matches frame_of without_pf with_peer peer_of in
      refl)
