-- ===== src/Hdlc/Deframer/Wire.antt =====
-- How the abstract receiver hears the frames that openaisg/hdlc.py builds.
use openaisg.Common.{
  ℕ, suc, ◌+◌, ◌≤◌, ◌≡◌, refl, sym, ap, ◌∙◌, arith, false, List, [], ◌∷◌, ◌++◌, ◌==◌, length,
  length-append, Bytes, All,
}
use openaisg.Hdlc.Framing.{flag, Frame, stuff, frame_body, build_frame}
use openaisg.Hdlc.Framing.Stuffing.{NoFlag, stuff-NoFlag, unstuff-stuff}
use openaisg.Hdlc.Framing.RoundTrip.{
  length-frame_body, length-stuff, fcs_matches-frame_body, frame_of-frame_body, wire,
  build_frame-append,
}
use openaisg.Hdlc.Deframer.{judge, good}
use openaisg.Hdlc.Deframer.Receiver.{hunting, inside, note, Fits, advance, hear}
use openaisg.Hdlc.Deframer.Search.{hear_chunk}

pub judge-frame :
    (addr ctrl : ℕ) (payload : Bytes)
    → judge (stuff (frame_body addr ctrl payload))
      ≡ good (record { addr = addr; ctrl = ctrl; payload = payload })
unfolding judge
judge-frame addr ctrl payload = ground (
  arith,
  unstuff-stuff (frame_body addr ctrl payload),
  length-stuff (frame_body addr ctrl payload),
  length-frame_body addr ctrl payload,
  fcs_matches-frame_body addr ctrl payload,
  frame_of-frame_body addr ctrl payload,
)

hear_inside-build_frame :
    (addr ctrl : ℕ) (payload rest : Bytes)
    → hear (inside []) (build_frame addr ctrl payload ++ rest)
      ≡ note (good (record { addr = addr; ctrl = ctrl; payload = payload })) (hear (inside []) rest)
unfolding hear judge
hear_inside-build_frame addr ctrl payload rest =
    ap (hear (inside [])) (build_frame-append addr ctrl payload rest)
    ∙ hear_chunk (stuff (frame_body addr ctrl payload)) rest (stuff-NoFlag _)
    ∙ ap (λ v. note v (hear (inside []) rest)) (judge-frame addr ctrl payload)

-- Between two frames a receiver hears what one that has just seen a flag hears.
hear-build_frame :
    (addr ctrl : ℕ) (payload rest : Bytes)
    → hear hunting (build_frame addr ctrl payload ++ rest)
      ≡ hear (inside []) (build_frame addr ctrl payload ++ rest)
unfolding hear judge
hear-build_frame addr ctrl payload rest =
    ap (hear hunting) (build_frame-append addr ctrl payload rest)
    ∙ ap (hear (inside [])) (sym (build_frame-append addr ctrl payload rest))

hear_inside-wire :
    (fs : List Frame)
    → ((hear (inside []) (wire fs)).frames ≡ fs) × ((hear (inside []) (wire fs)).errors ≡ 0)
unfolding wire
hear_inside-wire [] = unfold hear in (refl, refl)
hear_inside-wire (f ∷ fs) =
    rw hear_inside-build_frame (ap (λ l. f ∷ l) (hear_inside-wire fs).0, (hear_inside-wire fs).1)

pub hear-wire :
    (fs : List Frame)
    → ((hear hunting (wire fs)).frames ≡ fs) × ((hear hunting (wire fs)).errors ≡ 0)
unfolding wire
hear-wire [] = unfold hear in (refl, refl)
hear-wire (f ∷ fs) = rw hear-build_frame (hear_inside-wire (f ∷ fs))

-- The wire form of a frame fits a buffer of `m` bytes.
abbrev pub FrameFits : ℕ → Frame → Type 0
FrameFits m f = suc (length (stuff (frame_body f.addr f.ctrl f.payload))) ≤ m

Fits-body :
    (m : ℕ) (body chunk rest : Bytes)
    → NoFlag chunk
    → suc (length body + length chunk) ≤ m
    → Fits m (inside []) rest
    → Fits m (inside body) (chunk ++ (flag ∷ rest))
unfolding advance
Fits-body m body [] rest clean h k = (omega arith, k)
Fits-body m body (b ∷ chunk) rest clean h k =
    let other : (b == flag) ≡ false = ground (arith, clean.0) in
    let more : length (body ++ (b ∷ [])) ≡ length body + 1 = length-append body (b ∷ []) in
    rw other (
      omega (arith, more),
      Fits-body m (body ++ (b ∷ [])) chunk rest clean.1 (omega (arith, more)) k,
    )

pub Fits-wire :
    (m : ℕ) (fs : List Frame)
    → All (FrameFits m) fs
    → Fits m hunting (wire fs) × Fits m (inside []) (wire fs)
unfolding wire advance
Fits-wire m [] h = (tt, tt)
Fits-wire m (f ∷ fs) h =
    let rest : Fits m (inside []) (wire fs) = (Fits-wire m fs h.1).1 in
    let w : Bytes = stuff (frame_body f.addr f.ctrl f.payload) in
    let body : Fits m (inside []) (w ++ (flag ∷ wire fs)) =
      Fits-body m [] w (wire fs) (stuff-NoFlag _) (omega (arith, h.0)) rest in
    rw (build_frame-append f.addr f.ctrl f.payload (wire fs))
      ((omega (arith, h.0), body), (omega (arith, h.0), body))
