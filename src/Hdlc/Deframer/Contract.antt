-- ===== src/Hdlc/Deframer/Contract.antt =====
-- The contract of openaisg/hdlc.py's `Deframer.feed`, in the words of the abstract receiver.
use openaisg.Common.{◌+◌, ◌≡◌, sym, ap, ◌∙◌, arith, List, [], ◌++◌, some, Bytes}
use openaisg.Hdlc.Framing.{Frame}
use openaisg.Hdlc.Deframer.{Deframer, feed}
use openaisg.Hdlc.Deframer.Receiver.{hunting, hear}
use openaisg.Hdlc.Deframer.Refinement.{Delivered, feed-Delivered}

-- `feed` returns on every input. The frames that it delivers are those that the abstract receiver
-- hears in the buffer and the new bytes, and it counts each corrupt chunk that the receiver hears.
pub feed-hear :
    (d : Deframer) (bytes : Bytes)
    → (d' : Deframer) × (feed d bytes ≡ some (d', (hear hunting (d.buf ++ bytes)).frames))
      × (d'.fcs_errors ≡ d.fcs_errors + (hear hunting (d.buf ++ bytes)).errors)
      × (d'.max_frame ≡ d.max_frame)
feed-hear d bytes =
    let f : Delivered d bytes = feed-Delivered d bytes in
    (f.deframer, f.returns ∙ ap (λ out. some (f.deframer, out)) f.frames, f.errors, f.limit)

-- Where `feed` returns without an overrun, the abstract receiver that reads the buffer it leaves
-- ends as the one that reads the old buffer and the new bytes, and hears no frame and no corrupt
-- chunk in it.
pub feed-Keeps :
    (d d' : Deframer) (bytes : Bytes) (out : List Frame)
    → feed d bytes ≡ some (d', out)
    → d'.overruns ≡ d.overruns
    → hear hunting d'.buf
      ≡ record { state = (hear hunting (d.buf ++ bytes)).state; frames = []; errors = 0 }
feed-Keeps d d' bytes out e within =
    let f : Delivered d bytes = feed-Delivered d bytes in
    let same : f.deframer ≡ d' = ground (arith, f.returns, e) in
    ap (λ x. hear hunting x.buf) (sym same) ∙ f.kept (ap (λ x. x.overruns) same ∙ within)
