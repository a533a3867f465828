-- ===== src/Hdlc/Framing/RoundTrip.antt =====
-- Frames of openaisg/hdlc.py read back from the byte stream that carries them.
use openaisg.Common.{
  ℕ, suc, ◌+◌, ◌-◌, ◌*◌, ◌/◌, ◌^◌, ◌≤◌, ◌≡◌, refl, ap, ◌∙◌, arith, true, List, [], ◌∷◌, ◌++◌,
  append_assoc, ◌==◌, ==_iff, Bytes, length, get_or, length-append, take-append, bit_and, bit_or,
  some,
}
use openaisg.Common.Bits.{and_255, or_bytes}
use openaisg.Hdlc.Crc.{fcs16}
use openaisg.Hdlc.Crc.Detection.{fcs16-lt}
use openaisg.Hdlc.Framing.{
  flag, stuff, frame_body, build_frame, Frame, fcs_matches, frame_of, yields, split, parse_chunks,
  parse_frames, list_of,
}
use openaisg.Hdlc.Framing.Stuffing.{NoFlag, stuff-NoFlag, unstuff-stuff}

get_or-append_first : (xs ys : Bytes) → get_or (xs ++ ys) (length xs) 0 ≡ get_or ys 0 0
get_or-append_first [] ys = refl
get_or-append_first (x ∷ xs) ys = get_or-append_first xs ys

get_or-append_second : (xs ys : Bytes) → get_or (xs ++ ys) (suc (length xs)) 0 ≡ get_or ys 1 0
get_or-append_second [] ys = refl
get_or-append_second (x ∷ xs) ys = get_or-append_second xs ys

pub length-frame_body :
    (addr ctrl : ℕ) (payload : Bytes) → length (frame_body addr ctrl payload) ≡ length payload + 4
unfolding frame_body
length-frame_body addr ctrl payload = omega (arith, length-append {0} payload)

fcs_matches-append :
    (m : Bytes) (lo hi : ℕ)
    → fcs_matches (m ++ (lo ∷ hi ∷ [])) ≡ (fcs16 m == bit_or lo (hi * 2 ^ 8))
unfolding fcs_matches
fcs_matches-append m lo hi =
    rw (
      before_last,
      last,
      take-append m (lo ∷ hi ∷ []),
      get_or-append_first m,
      get_or-append_second m,
    )
  where
    before_last : length (m ++ (lo ∷ hi ∷ [])) - 2 ≡ length m
    before_last = omega (arith, length-append {0} m)

    last : length (m ++ (lo ∷ hi ∷ [])) - 1 ≡ suc (length m)
    last = omega (arith, length-append {0} m)

-- The check of the receiver accepts the two bytes that the sender appends.
pub fcs_matches-frame_body :
    (addr ctrl : ℕ) (payload : Bytes) → fcs_matches (frame_body addr ctrl payload) ≡ true
unfolding frame_body
fcs_matches-frame_body addr ctrl payload =
    let crc : ℕ = fcs16 (addr ∷ ctrl ∷ payload) in
    fcs_matches-append (addr ∷ ctrl ∷ payload) _ _
    ∙ (==_iff crc _).1 (
        omega (
          arith,
          and_255 crc,
          fcs16-lt (addr ∷ ctrl ∷ payload),
          or_bytes (bit_and crc 255) (crc / 256),
        ))

pub frame_of-frame_body :
    (addr ctrl : ℕ) (payload : Bytes)
    → frame_of (frame_body addr ctrl payload)
      ≡ record { addr = addr; ctrl = ctrl; payload = payload }
unfolding frame_of frame_body
frame_of-frame_body addr ctrl payload = rw (inner, take-append payload)
  where
    inner : length (frame_body addr ctrl payload) - 4 ≡ length payload
    inner = omega (arith, length-frame_body addr ctrl payload)

split-append : (w rest : Bytes) → NoFlag w → split flag (w ++ (flag ∷ rest)) ≡ w ∷ split flag rest
unfolding split
split-append [] rest h = refl
split-append (b ∷ w) rest h = ground (arith, split-append w rest h.1)

pub length-stuff : (bs : Bytes) → length bs ≤ length (stuff bs)
unfolding stuff
length-stuff [] = omega arith
length-stuff (b ∷ bs) = ground (arith, length-stuff bs)

parse_chunks-frame :
    (addr ctrl : ℕ) (payload : Bytes) (chunks : List Bytes)
    → parse_chunks (stuff (frame_body addr ctrl payload) ∷ chunks)
      ≡ yields (record { addr = addr; ctrl = ctrl; payload = payload }) (parse_chunks chunks)
unfolding parse_chunks
parse_chunks-frame addr ctrl payload chunks = ground (
  arith,
  unstuff-stuff (frame_body addr ctrl payload),
  length-stuff (frame_body addr ctrl payload),
  length-frame_body addr ctrl payload,
  fcs_matches-frame_body addr ctrl payload,
  frame_of-frame_body addr ctrl payload,
)

pub build_frame-append :
    (addr ctrl : ℕ) (payload rest : Bytes)
    → build_frame addr ctrl payload ++ rest
      ≡ flag ∷ (stuff (frame_body addr ctrl payload) ++ (flag ∷ rest))
unfolding build_frame
build_frame-append addr ctrl payload rest =
    ap (λ l. flag ∷ l) (append_assoc (stuff (frame_body addr ctrl payload)) (flag ∷ []) rest)

split-build_frame :
    (addr ctrl : ℕ) (payload rest : Bytes)
    → split flag (build_frame addr ctrl payload ++ rest)
      ≡ [] ∷ stuff (frame_body addr ctrl payload) ∷ split flag rest
split-build_frame addr ctrl payload rest = rw (build_frame-append addr ctrl payload rest) (
    unfold split in
    ap (λ l. [] ∷ l) (split-append (stuff (frame_body addr ctrl payload)) rest (stuff-NoFlag _)))

-- The one-shot parser that reads a frame yields its address, control byte and payload, and goes on
-- as if it read only the bytes behind the frame.
parse_frames-build_frame :
    (addr ctrl : ℕ) (payload rest : Bytes)
    → parse_frames (build_frame addr ctrl payload ++ rest)
      ≡ yields (record { addr = addr; ctrl = ctrl; payload = payload }) (parse_frames rest)
unfolding parse_frames parse_chunks
parse_frames-build_frame addr ctrl payload rest =
    ap parse_chunks (split-build_frame addr ctrl payload rest)
    ∙ parse_chunks-frame addr ctrl payload (split flag rest)

-- The wire form of a list of frames, one after the other.
unfoldable pub wire : List Frame → Bytes
wire [] = []
wire (f ∷ fs) = build_frame f.addr f.ctrl f.payload ++ wire fs

-- The one-shot parser returns exactly the frames whose wire forms it reads one after the other, in
-- order and without a `FrameError`.
pub parse_frames-wire : (fs : List Frame) → list_of (parse_frames (wire fs)) ≡ some fs
unfolding wire list_of
parse_frames-wire [] = unfold parse_frames split parse_chunks in refl
parse_frames-wire (f ∷ fs) =
    rw (parse_frames-build_frame f.addr f.ctrl f.payload (wire fs), parse_frames-wire fs)
