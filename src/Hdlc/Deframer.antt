-- ===== src/Hdlc/Deframer.antt =====
-- openaisg/hdlc.py: the class `Deframer`, the incremental deframer of a long-lived session.
pub mod Receiver
pub mod Search
pub mod Passes
pub mod Refinement
pub mod Contract
pub mod Wire
pub mod Delivery
pub mod Bounded
mod Tests
use openaisg.Common.{
  ℕ, zero, suc, ◌+◌, ◌-◌, Bool, true, false, List, [], ◌∷◌, ◌++◌, Option, none, some, ltb, ◌==◌,
  if◌then◌else◌, length, take, drop, Bytes,
}
use mathlib.Core.Option
use openaisg.Hdlc.Framing.{flag, Frame, unstuff, fcs_matches, frame_of}

pub record Deframer : Type 0 where
  pub buf : Bytes
  pub max_frame : ℕ
  pub fcs_errors : ℕ
  pub overruns : ℕ

-- `Deframer(max_frame)`.
abbrev pub empty : ℕ → Deframer
empty max_frame = record { buf = []; max_frame = max_frame; fcs_errors = 0; overruns = 0 }

-- `xs.find(c, start)`, where `none` is -1.
unfoldable pub find : ℕ → Bytes → ℕ → Option ℕ
find c [] start = none
find c (x ∷ xs) zero = if x == c then some 0 else Option.map suc (find c xs 0)
find c (x ∷ xs) (suc start) = Option.map suc (find c xs start)

-- What the bytes between two flags amount to.
pub data Verdict : Type 0 where
  ignored corrupt : Verdict
  good : Frame → Verdict

unfoldable pub judge : Bytes → Verdict
judge chunk =
    let body = unstuff chunk in
    if length chunk == 0
    then ignored
    else if ltb (length body) 4
    then ignored
    else if fcs_matches body
    then good (frame_of body)
    else corrupt

-- One pass of the loop of `feed`: it returns, or goes on with what it appends to `out`.
pub data Pass : Type 0 where
  stop : Deframer → Pass
  next : Deframer → List Frame → Pass

-- No flag at all.
pub cap_noise : Deframer → Deframer
cap_noise d =
    if ltb d.max_frame (length d.buf)
    then record d { buf = drop (length d.buf - 1) d.buf; overruns = d.overruns + 1 }
    else d

-- A partial frame, its opening flag first.
pub cap_partial : Deframer → Deframer
cap_partial d =
    if ltb d.max_frame (length d.buf)
    then record d { buf = drop 1 d.buf; overruns = d.overruns + 1 }
    else d

-- The state and the new frames after a whole chunk.
pub settle : Deframer → Verdict → Pass
settle d ignored = next d []
settle d corrupt = next (record d { fcs_errors = d.fcs_errors + 1 }) []
settle d (good frame) = next d (frame ∷ [])

unfoldable pub feed_pass : Deframer → Pass
unfolding cap_noise cap_partial settle
feed_pass d = elim (find flag d.buf 0) [
  | none ↦ stop (cap_noise d)
  | some i ↦ elim (find flag d.buf (suc i)) [
    | none ↦ stop (cap_partial (record d { buf = drop i d.buf }))
    | some j ↦
        settle (record d { buf = drop j d.buf }) (judge (take (j - suc i) (drop (suc i) d.buf)))
  ]
]

-- The loop of `feed`; `none` means that the fuel ran out.
unfoldable pub feed_loop : ℕ → Deframer → List Frame → Option (Deframer × List Frame)
feed_loop zero d out = none
feed_loop (suc fuel) d out = elim (feed_pass d) [
  | stop d' ↦ some (d', out)
  | next d' found ↦ feed_loop fuel d' (out ++ found)
]

-- Each pass but the last removes a byte at least.
unfoldable pub feed : Deframer → Bytes → Option (Deframer × List Frame)
feed d bytes = feed_loop (suc (length (d.buf ++ bytes))) (record d { buf = d.buf ++ bytes }) []

-- `frames += deframer.feed(chunk)` for each chunk that is read.
unfoldable pub feed_all : Deframer → List Bytes → Option (Deframer × List Frame)
feed_all d [] = some (d, [])
feed_all d (chunk ∷ chunks) = elim (feed d chunk) [
  | none ↦ none
  | some (d', out) ↦ Option.map (λ (e, more). (e, out ++ more)) (feed_all d' chunks)
]

-- The loop of the property `partial`, on the bytes from index `i` on.
unfoldable has_body : Bytes → Bool
has_body [] = false
has_body (b ∷ bs) = if b == flag then has_body bs else true

unfoldable pub partial : Deframer → Bool
unfolding has_body
partial d = has_body d.buf
