-- ===== src/Hdlc/Deframer/Refinement.antt =====
-- `feed` of openaisg/hdlc.py's `Deframer` against the abstract receiver.
use openaisg.Common.{
  ℕ, zero, suc, ◌+◌, ◌<◌, ◌≤◌, ◌≡◌, refl, sym, ap, ◌∙◌, arith, List, [], ◌∷◌, ◌++◌, append_assoc,
  append-nil, some, length, length-append, Bytes, inl, inr,
}
use openaisg.Hdlc.Framing.{flag, Frame}
use openaisg.Hdlc.Framing.Stuffing.{NoFlag}
use openaisg.Hdlc.Deframer.{
  Deframer, find, judge, Verdict, ignored, corrupt, good, stop, next, settle, cap_noise,
  cap_partial, feed_pass, feed_loop, feed,
}
use openaisg.Hdlc.Deframer.Receiver.{hunting, inside, Heard, note, hear, follow, InFrame}
use openaisg.Hdlc.Deframer.Passes.{feed_pass_noise, feed_pass_partial, feed_pass_chunk}
use openaisg.Hdlc.Deframer.Search.{Cut, Uncut, find_cases, hear_junk, hear_body, hear_chunk}

-- What a call of the loop did, in the words of the receiver.
record Fed (d d' : Deframer) (out out' : List Frame) : Type 0 where
  pub frames : out' ≡ out ++ (hear hunting d.buf).frames
  pub errors : d'.fcs_errors ≡ d.fcs_errors + (hear hunting d.buf).errors
  pub limit : d'.max_frame ≡ d.max_frame
  pub grows : d.overruns ≤ d'.overruns
  pub room : InFrame d.max_frame (hear hunting d.buf).state → d'.overruns ≡ d.overruns
  pub kept :
      d'.overruns ≡ d.overruns
      → hear hunting d'.buf ≡ record { state = (hear hunting d.buf).state; frames = []; errors = 0 }

hear_clean :
    (xs : Bytes) → NoFlag xs → hear hunting xs ≡ record { state = hunting; frames = []; errors = 0 }
unfolding hear
hear_clean xs h = ap (hear hunting) (sym (append-nil xs)) ∙ hear_junk xs [] h

hear_open :
    (xs : Bytes)
    → NoFlag xs
    → hear (inside []) xs ≡ record { state = inside xs; frames = []; errors = 0 }
unfolding hear
hear_open xs h = ap (hear (inside [])) (sym (append-nil xs)) ∙ hear_body [] xs [] h

hear-Cut : {xs : Bytes} (c : Cut xs) → hear hunting xs ≡ hear (inside []) c.after
unfolding hear
hear-Cut c = ap (hear hunting) c.whole ∙ hear_junk c.before (flag ∷ c.after) c.clean

noise-Fed : (d : Deframer) (out : List Frame) → Uncut d.buf → Fed d (cap_noise d) out out
unfolding cap_noise
noise-Fed d out u = ground (arith, hear_clean d.buf u.clean, append-nil out)

partial-Fed :
    (d : Deframer) (out : List Frame) (c : Cut d.buf)
    → Uncut c.after
    → Fed d (cap_partial (record d { buf = flag ∷ c.after })) out out
unfolding cap_partial
partial-Fed d out c u =
    ground (arith, hear-Cut c, hear-Cut again, hear_open c.after u.clean, append-nil out)
  where
    again : Cut (flag ∷ c.after)
    again = record {
      before = [];
      after = c.after;
      whole = refl;
      clean = tt;
      found = unfold find in refl;
    }

-- What a verdict adds.
pub found_of : Verdict → List Frame
found_of (good frame) = frame ∷ []
found_of _ = []

pub error_of : Verdict → ℕ
error_of corrupt = 1
error_of _ = 0

abbrev pub settled : Deframer → Verdict → Deframer
settled d v = record d { fcs_errors = d.fcs_errors + error_of v }

pub settle-next : (d : Deframer) (v : Verdict) → settle d v ≡ next (settled d v) (found_of v)
unfolding settle found_of error_of
settle-next d ignored = ground arith
settle-next d corrupt = ground arith
settle-next d (good frame) = ground arith

note-follow :
    (v : Verdict) (h : Heard)
    → note v h ≡ follow (record { state = hunting; frames = found_of v; errors = error_of v }) h
unfolding found_of error_of
note-follow ignored h = ground arith
note-follow corrupt h = ground arith
note-follow (good frame) h = ground arith

-- One chunk and the rest of the loop.
settle-Fed :
    (d d' : Deframer) (out out' : List Frame) (v : Verdict) (c : Cut d.buf) (after : Bytes)
    → hear (inside []) c.after ≡ note v (hear (inside []) after)
    → Fed (settled (record d { buf = flag ∷ after }) v) d' (out ++ found_of v) out'
    → Fed d d' out out'
unfolding hear
settle-Fed d d' out out' v c after h fed = ground (
  arith,
  hear-Cut c,
  h,
  note-follow v (hear (inside []) after),
  append_assoc out (found_of v) (hear (inside []) after).frames,
  fed.frames,
  fed.errors,
  fed.kept,
  fed.room,
)

abbrev Ends : ℕ → Deframer → List Frame → Type 0
Ends fuel d out =
    (d' : Deframer) × (out' : List Frame) × (feed_loop fuel d out ≡ some (d', out'))
    × Fed d d' out out'

shorter : {xs : Bytes} (c : Cut xs) (c' : Cut c.after) → suc (length c'.after) < length xs
shorter c c' = omega (
  arith,
  ap length c.whole,
  ap length c'.whole,
  length-append {0} c.before (flag ∷ c.after),
  length-append {0} c'.before (flag ∷ c'.after),
)

pub feed_loop_stop :
    (fuel : ℕ) (d : Deframer) {d' : Deframer} (out : List Frame)
    → feed_pass d ≡ stop d'
    → feed_loop (suc fuel) d out ≡ some (d', out)
unfolding feed_loop
feed_loop_stop fuel d out e = rw (e, feed_loop)

pub feed_loop_next :
    (fuel : ℕ) (d : Deframer) {d' : Deframer} (out found : List Frame)
    → feed_pass d ≡ next d' found
    → feed_loop (suc fuel) d out ≡ feed_loop fuel d' (out ++ found)
unfolding feed_loop
feed_loop_next fuel d out found e = rw (e, feed_loop)

chunk-Ends :
    (fuel : ℕ) (d : Deframer) (out : List Frame) (c : Cut d.buf) (c' : Cut c.after)
    → ((e : Deframer) (o : List Frame) → length e.buf < fuel → Ends fuel e o)
    → length d.buf < suc fuel
    → Ends (suc fuel) d out
chunk-Ends fuel d out c c' rest h =
    let v : Verdict = judge c'.before in
    let (d', out', ends, fed) =
      rest (settled (record d { buf = flag ∷ c'.after }) v) (out ++ found_of v)
        (omega (arith, shorter c c')) in
    (
      d',
      out',
      feed_loop_next fuel d out (found_of v)
            (feed_pass_chunk d c c' ∙ settle-next (record d { buf = flag ∷ c'.after }) v)
          ∙ ends,
      settle-Fed d d' out out' v c c'.after
          (ap (hear (inside [])) c'.whole ∙ hear_chunk c'.before c'.after c'.clean) fed,
    )

-- With more fuel than bytes the loop ends.
loop-Ends : (fuel : ℕ) (d : Deframer) (out : List Frame) → length d.buf < fuel → Ends fuel d out
loop-Ends zero d out h = absurd (omega arith)
loop-Ends (suc fuel) d out h = elim (find_cases d.buf) [
  | inr u ↦ (cap_noise d, out, feed_loop_stop fuel d out (feed_pass_noise d u), noise-Fed d out u)
  | inl c ↦ elim (find_cases c.after) [
    | inr u ↦ (
      cap_partial (record d { buf = flag ∷ c.after }),
      out,
      feed_loop_stop fuel d out (feed_pass_partial d c u),
      partial-Fed d out c u,
    )
    | inl c' ↦ chunk-Ends fuel d out c c' (loop-Ends fuel) h
  ]
]

-- The outcome of `feed`, which always returns, in the words of the receiver.
pub record Delivered (d : Deframer) (bytes : Bytes) : Type 0 where
  pub deframer : Deframer
  pub out : List Frame
  pub returns : feed d bytes ≡ some (deframer, out)
  pub frames : out ≡ (hear hunting (d.buf ++ bytes)).frames
  pub errors : deframer.fcs_errors ≡ d.fcs_errors + (hear hunting (d.buf ++ bytes)).errors
  pub limit : deframer.max_frame ≡ d.max_frame
  pub grows : d.overruns ≤ deframer.overruns
  pub room :
      InFrame d.max_frame (hear hunting (d.buf ++ bytes)).state → deframer.overruns ≡ d.overruns
  pub kept :
      deframer.overruns ≡ d.overruns
      → hear hunting deframer.buf
        ≡ record { state = (hear hunting (d.buf ++ bytes)).state; frames = []; errors = 0 }

-- `feed` returns whatever it is fed; it delivers what the receiver hears in the buffer and the new
-- bytes, counts each corrupt chunk once, and unless it overruns keeps what the receiver remembers.
pub feed-Delivered : (d : Deframer) (bytes : Bytes) → Delivered d bytes
unfolding feed
feed-Delivered d bytes =
    let (d', out', ends, fed) =
      loop-Ends (suc (length (d.buf ++ bytes))) (record d { buf = d.buf ++ bytes }) []
        (omega arith) in
    record {
      deframer = d';
      out = out';
      returns = ends;
      frames = fed.frames;
      errors = fed.errors;
      limit = fed.limit;
      grows = fed.grows;
      room = fed.room;
      kept = fed.kept;
    }
