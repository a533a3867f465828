-- ===== src/Hdlc/Deframer/Delivery.antt =====
-- What openaisg/hdlc.py's `Deframer` delivers of a stream that is read in chunks.
use openaisg.Common.{
  ℕ, ◌+◌, ◌≡◌, ◌≢◌, refl, sym, ap, ◌∙◌, arith, List, [], ◌∷◌, ◌++◌, append_assoc, some, Bytes, All,
}
use mathlib.Core.Option
use openaisg.Hdlc.Framing.{flag, Frame, stuff, frame_body, build_frame}
use openaisg.Hdlc.Framing.Stuffing.{stuff-NoFlag}
use openaisg.Hdlc.Framing.RoundTrip.{wire}
use openaisg.Hdlc.Deframer.{Deframer, empty, feed, feed_all, judge, Verdict, good, corrupt, ignored}
use openaisg.Hdlc.Deframer.Receiver.{
  Receiver, hunting, inside, Heard, note, Fits, Fits-append, Fits-end, hear, hear-append,
}
use openaisg.Hdlc.Deframer.Search.{hear_chunk}
use openaisg.Hdlc.Deframer.Wire.{hear-wire, judge-frame, FrameFits, Fits-wire}
use openaisg.Hdlc.Deframer.Refinement.{Delivered, feed-Delivered}

abbrev pub concat : List Bytes → Bytes
concat [] = []
concat (chunk ∷ chunks) = chunk ++ concat chunks

-- A deframer that holds no whole frame, and what it remembers.
abbrev Idle : Deframer → Receiver → Type 0
Idle d r = hear hunting d.buf ≡ record { state = r; frames = []; errors = 0 }

module _ (d : Deframer) (chunk : Bytes) (chunks : List Bytes) where
  feed_all-cons :
      feed_all d (chunk ∷ chunks)
      ≡ Option.map
          (λ (e, more). (e, (feed-Delivered d chunk).out ++ more))
          (feed_all (feed-Delivered d chunk).deframer chunks)
  unfolding feed_all
  feed_all-cons = rw ((feed-Delivered d chunk).returns, feed_all)

-- From an idle deframer, the receiver's view of one chunk.
hear-Idle :
    (d : Deframer) (r : Receiver) (chunk : Bytes)
    → Idle d r
    → hear hunting (d.buf ++ chunk) ≡ hear r chunk
hear-Idle d r chunk h = ground (arith, hear-append hunting d.buf chunk, h)

-- What the reads of a stream amount to, taken together, where each frame in progress fits.
record Streamed (d : Deframer) (r : Receiver) (chunks : List Bytes) : Type 0 where
  pub deframer : Deframer
  pub returns : feed_all d chunks ≡ some (deframer, (hear r (concat chunks)).frames)
  pub errors : deframer.fcs_errors ≡ d.fcs_errors + (hear r (concat chunks)).errors
  pub overruns : deframer.overruns ≡ d.overruns

feed_one :
    (d : Deframer) (r : Receiver) (b : ℕ) (bs : Bytes)
    → Idle d r
    → Fits d.max_frame r (b ∷ bs)
    → (feed-Delivered d (b ∷ bs)).deframer.overruns ≡ d.overruns
feed_one d r b bs idle fits =
    (feed-Delivered d (b ∷ bs)).room
      (rw (hear-Idle d r (b ∷ bs) idle) (Fits-end d.max_frame r b bs fits))

Streamed-cons :
    (d : Deframer) (r : Receiver) (chunk : Bytes) (chunks : List Bytes)
    → Idle d r
    → Streamed (feed-Delivered d chunk).deframer (hear r chunk).state chunks
    → (feed-Delivered d chunk).deframer.overruns ≡ d.overruns
    → Streamed d r (chunk ∷ chunks)
Streamed-cons d r chunk chunks idle g within =
    let f : Delivered d chunk = feed-Delivered d chunk in
    let same : hear hunting (d.buf ++ chunk) ≡ hear r chunk = hear-Idle d r chunk idle in
    let both = hear-append r chunk (concat chunks) in
    record {
      deframer = g.deframer;
      returns =
          feed_all-cons d chunk chunks
          ∙ ap (Option.map (λ (e, more). (e, f.out ++ more))) g.returns
          ∙ ground (arith, both, f.frames, same);
      errors = ground (arith, both, f.errors, same, g.errors);
      overruns = g.overruns ∙ within;
    }

feed_chunks-Streamed :
    (d : Deframer) (r : Receiver) (chunks : List Bytes)
    → All (λ c. c ≢ []) chunks
    → Idle d r
    → Fits d.max_frame r (concat chunks)
    → Streamed d r chunks
unfolding feed_all
feed_chunks-Streamed d r [] solid idle fits =
    unfold hear in record { deframer = d; returns = refl; errors = omega arith; overruns = refl }
feed_chunks-Streamed d r ([] ∷ chunks) solid idle fits = absurd (solid.0 refl)
feed_chunks-Streamed d r ((b ∷ bs) ∷ chunks) solid idle fits =
    let f : Delivered d (b ∷ bs) = feed-Delivered d (b ∷ bs) in
    let (front, back) = Fits-append d.max_frame r (b ∷ bs) (concat chunks) fits in
    let within : f.deframer.overruns ≡ d.overruns = feed_one d r b bs idle front in
    Streamed-cons d r (b ∷ bs) chunks idle
      (feed_chunks-Streamed f.deframer (hear r (b ∷ bs)).state chunks solid.1
        (f.kept within ∙ rw (hear-Idle d r (b ∷ bs) idle)) (rw f.limit back))
      within

-- A fresh deframer that reads the wire form of some frames, cut into non-empty chunks in any way,
-- delivers exactly those frames in order, with no error and no overrun, if each frame with its
-- opening flag fits the buffer.
pub feed_all-wire :
    (max_frame : ℕ) (chunks : List Bytes) (fs : List Frame)
    → All (λ c. c ≢ []) chunks
    → All (FrameFits max_frame) fs
    → concat chunks ≡ wire fs
    → (d : Deframer) × (feed_all (empty max_frame) chunks ≡ some (d, fs))
      × (d.fcs_errors ≡ 0)
      × (d.overruns ≡ 0)
feed_all-wire max_frame chunks fs solid fits cut =
    let s =
      feed_chunks-Streamed (empty max_frame) hunting chunks solid (unfold hear in refl)
        (rw cut (Fits-wire max_frame fs fits).0) in
    (
      s.deframer,
      s.returns
          ∙ ap (λ l. some (s.deframer, (hear hunting l).frames)) cut
          ∙ ap (λ l. some (s.deframer, l)) (hear-wire fs).0,
      omega (arith, s.errors, ap (λ l. (hear hunting l).errors) cut, (hear-wire fs).1),
      s.overruns,
    )

-- The frames that were found end in `f`.
abbrev EndsIn : Frame → List Frame → Type 0
EndsIn f fs = (earlier : List Frame) × (fs ≡ earlier ++ (f ∷ []))

note-EndsIn : (v : Verdict) (f : Frame) (h : Heard) → EndsIn f h.frames → EndsIn f (note v h).frames
note-EndsIn ignored f h e = e
note-EndsIn corrupt f h e = e
note-EndsIn (good g) f h (earlier, e) = (g ∷ earlier, ap (λ l. g ∷ l) e)

heard_body :
    (addr ctrl : ℕ) (payload : Bytes)
    → hear (inside []) (stuff (frame_body addr ctrl payload) ++ (flag ∷ []))
      ≡ note (good (record { addr = addr; ctrl = ctrl; payload = payload })) (hear (inside []) [])
heard_body addr ctrl payload =
    hear_chunk (stuff (frame_body addr ctrl payload)) [] (stuff-NoFlag _)
    ∙ ap (λ v. note v (hear (inside []) [])) (judge-frame addr ctrl payload)

-- Wherever a receiver stands, it hears a frame that begins with a flag.
hear-EndsIn :
    (r : Receiver) (addr ctrl : ℕ) (payload : Bytes)
    → EndsIn
        (record { addr = addr; ctrl = ctrl; payload = payload })
        (hear r (build_frame addr ctrl payload)).frames
unfolding build_frame hear
hear-EndsIn hunting addr ctrl payload = ([], ap (λ h. h.frames) (heard_body addr ctrl payload))
hear-EndsIn (inside body) addr ctrl payload =
    note-EndsIn (judge body) _ _ ([], ap (λ h. h.frames) (heard_body addr ctrl payload))

-- Whatever the buffer holds and whatever noise comes before a frame, `feed` delivers the frame
-- behind the noise, as the last one.
pub feed_resync :
    (d : Deframer) (noise payload : Bytes) (addr ctrl : ℕ)
    → (d' : Deframer) × (earlier : List Frame) × (feed d (noise ++ build_frame addr ctrl payload)
        ≡ some (d', earlier ++ (record { addr = addr; ctrl = ctrl; payload = payload } ∷ [])))
feed_resync d noise payload addr ctrl =
    let b : Bytes = build_frame addr ctrl payload in
    let f : Delivered d (noise ++ b) = feed-Delivered d (noise ++ b) in
    let before : Heard = hear hunting (d.buf ++ noise) in
    let (earlier, e) = hear-EndsIn before.state addr ctrl payload in
    (
      f.deframer,
      before.frames ++ earlier,
      f.returns
          ∙ ap (λ l. some (f.deframer, l))
              (f.frames
                ∙ ap (λ l. (hear hunting l).frames) (sym (append_assoc d.buf noise b))
                ∙ ap (λ h. h.frames) (hear-append hunting (d.buf ++ noise) b)
                ∙ ap (λ l. before.frames ++ l) e
                ∙ sym (append_assoc before.frames earlier _)),
    )
