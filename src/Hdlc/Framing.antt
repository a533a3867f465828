-- ===== src/Hdlc/Framing.antt =====
-- openaisg/hdlc.py: byte stuffing, building a frame, and the one-shot parser. `addr`, `ctrl` and
-- the elements of a byte string stand for bytes.
pub mod Stuffing
pub mod RoundTrip
mod Tests
use openaisg.Common.{
  ℕ, zero, suc, ◌+◌, ◌-◌, ◌*◌, ◌/◌, ◌^◌, Bool, true, false, ◌||◌, List, [], ◌∷◌, ◌++◌, ltb, ◌==◌,
  if◌then◌else◌, length, take, drop, get_or, Bytes, Option, none, some, bit_and, bit_or, bit_xor,
}
use openaisg.Hdlc.Crc.{fcs16}
use mathlib.Core.Option

abbrev pub flag : ℕ
flag = 0x7e

abbrev esc : ℕ
esc = 0x7d

abbrev esc_xor : ℕ
esc_xor = 0x20

unfoldable pub stuff : Bytes → Bytes
stuff [] = []
stuff (b ∷ bs) =
    let rest = stuff bs in
    if b == flag || b == esc then esc ∷ bit_xor b esc_xor ∷ rest else b ∷ rest

-- The loop of `unstuff`; the flag is its variable `esc`.
unstuff_loop : Bool → Bytes → Bytes
unstuff_loop escaped [] = []
unstuff_loop true (b ∷ bs) = bit_xor b esc_xor ∷ unstuff_loop false bs
unstuff_loop false (b ∷ bs) =
    let after_esc = unstuff_loop true bs in
    let plain = b ∷ unstuff_loop false bs in if b == esc then after_esc else plain

unfoldable pub unstuff : Bytes → Bytes
unfolding unstuff_loop
unstuff bytes = unstuff_loop false bytes

-- The bytes between the flags, before stuffing.
unfoldable pub frame_body : ℕ → ℕ → Bytes → Bytes
frame_body addr ctrl payload =
    let body = addr ∷ ctrl ∷ payload in
    let crc = fcs16 body in body ++ (bit_and crc 0xff ∷ crc / 2 ^ 8 ∷ [])

unfoldable pub build_frame : ℕ → ℕ → Bytes → Bytes
build_frame addr ctrl payload = flag ∷ (stuff (frame_body addr ctrl payload) ++ (flag ∷ []))

-- The tuple `(addr, ctrl, payload)`.
pub record Frame : Type 0 where
  pub addr : ℕ
  pub ctrl : ℕ
  pub payload : Bytes

-- `fcs16(body[:-2]) == body[-2] | (body[-1] << 8)`, for a body of two bytes at least.
unfoldable pub fcs_matches : Bytes → Bool
fcs_matches body =
    let n = length body in
    fcs16 (take (n - 2) body) == bit_or (get_or body (n - 2) 0) (get_or body (n - 1) 0 * 2 ^ 8)

-- `(body[0], body[1], body[2:-2])`, for a body of four bytes at least.
unfoldable pub frame_of : Bytes → Frame
frame_of body = record {
  addr = get_or body 0 0;
  ctrl = get_or body 1 0;
  payload = take (length body - 4) (drop 2 body);
}

-- What a generator of frames does: it ends, raises `FrameError`, or yields a frame and goes on.
pub data Frames : Type 0 where
  done : Frames
  raises : Frames
  yields : Frame → Frames → Frames

-- One byte more in front of the first chunk of a split.
extend : ℕ → List Bytes → List Bytes
extend b [] = (b ∷ []) ∷ []
extend b (chunk ∷ chunks) = (b ∷ chunk) ∷ chunks

-- `raw.split(bytes([sep]))`.
unfoldable pub split : ℕ → Bytes → List Bytes
unfolding extend
split sep [] = [] ∷ []
split sep (b ∷ bs) = let rest = split sep bs in if b == sep then [] ∷ rest else extend b rest

-- The loop of `parse_frames` over the chunks that are left.
unfoldable pub parse_chunks : List Bytes → Frames
parse_chunks [] = done
parse_chunks (chunk ∷ chunks) =
    let rest = parse_chunks chunks in
    let body = unstuff chunk in
    if length chunk == 0
    then rest
    else if ltb (length body) 4
    then rest
    else if fcs_matches body
    then yields (frame_of body) rest
    else raises

unfoldable pub parse_frames : Bytes → Frames
parse_frames raw = parse_chunks (split flag raw)

-- `list(frames)`: `none` is the `FrameError`, which loses the frames before it.
unfoldable pub list_of : Frames → Option (List Frame)
list_of done = some []
list_of raises = none
list_of (yields frame rest) = Option.map (λ frames. frame ∷ frames) (list_of rest)
