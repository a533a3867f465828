-- ===== src/Link/Pump/Tests.antt =====
-- Runs of `AisgLink._read_frames` of openaisg/link.py.
use openaisg.Common.{ℕ, ◌≡◌, refl, arith, inl, inr, List, [], ◌∷◌, ◌++◌, some}
use openaisg.Hdlc.Crc.{fcs16}
use openaisg.Hdlc.Framing.{unstuff, fcs_matches, frame_of}
use openaisg.Hdlc.Deframer.{empty, find, judge, feed_pass, feed_loop, feed, feed_all, partial}
use openaisg.Link.Pump.{Budget, Read, Pump, primed, returns_at, read_frames}
use openaisg.Link.Pump.Silence.{UpTo, Apart, read_frames_silence}
use openaisg.Link.Pump.Ends.{read_frames_ends}
use openaisg.Link.Pump.Delivery.{chunks, read_frames-feed_all}

-- The default budget, from time 0.
abbrev budget : Budget
budget = record { start = 0; budget = 50; idle_gap = 50; hard_cap = 3000 }

-- A frame arrives in two chunks, the second of them behind the budget.
abbrev reads : List Read
reads =
    record { chunk = 0x7e ∷ 3 ∷ []; now = 40 }
    ∷ record { chunk = []; now = 60 }
    ∷ record { chunk = 0x11 ∷ 0x27 ∷ 0x24 ∷ 0x7e ∷ []; now = 80 }
    ∷ record { chunk = []; now = 3000 }
    ∷ []

abbrev filled : Pump
filled = record {
  deframer = record { buf = 0x7e ∷ []; max_frame = 512; fcs_errors = 0; overruns = 0 };
  frames = record { addr = 3; ctrl = 0x11; payload = [] } ∷ [];
  last_rx = 80;
}

read_frames_whole : read_frames budget (primed (empty 512)) reads ≡ some (returns_at 80 filled)
unfolding read_frames feed feed_loop feed_pass find judge unstuff fcs_matches frame_of fcs16 partial
read_frames_whole = refl

-- The device stops in the middle of a frame.
abbrev broken : List Read
broken = record { chunk = 0x7e ∷ 3 ∷ []; now = 10 } ∷ record { chunk = []; now = 70 } ∷ []

abbrev stopped : Pump
stopped = record {
  deframer = record { buf = 0x7e ∷ 3 ∷ []; max_frame = 512; fcs_errors = 0; overruns = 0 };
  frames = [];
  last_rx = 10;
}

read_frames_silence_example : UpTo budget (primed (empty 512)) broken 70 stopped (Apart 50 70)
unfolding partial
read_frames_silence_example =
    read_frames_silence budget (empty 512) stopped broken 70 (omega arith, (omega arith, tt))
      (unfold read_frames feed feed_loop feed_pass find partial in refl) refl (omega arith) refl

read_frames_ends_example :
    (now : ℕ) × (s' : Pump) × (read_frames budget (primed (empty 512)) reads
      ≡ some (returns_at now s'))
read_frames_ends_example =
    read_frames_ends budget (primed (empty 512)) reads (inr (inr (inr (inl (omega arith)))))

read_frames-feed_all_example :
    (consumed : List Read) × (rest : List Read) × (reads ≡ consumed ++ rest)
    × (feed_all (empty 512) (chunks consumed) ≡ some (filled.deframer, filled.frames))
read_frames-feed_all_example =
    read_frames-feed_all budget (empty 512) reads 80 filled read_frames_whole
