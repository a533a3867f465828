-- ===== src/Hdlc/Deframer/Receiver.antt =====
-- The abstract receiver that the class `Deframer` of openaisg/hdlc.py implements: one byte at a
-- time, with no buffer limit, hunting for a flag and then collecting the bytes up to the next.
use openaisg.Common.{
  ℕ, suc, ◌+◌, ◌≡◌, refl, arith, List, [], ◌∷◌, ◌++◌, ◌==◌, if◌then◌else◌, Bytes, length, ◌≤◌,
}
use openaisg.Hdlc.Framing.{flag, Frame}
use openaisg.Hdlc.Deframer.{Verdict, ignored, corrupt, good, judge}

pub data Receiver : Type 0 where
  hunting : Receiver
  inside : Bytes → Receiver

-- What a receiver made of some bytes: where it stands, the frames and the corrupt chunks.
pub record Heard : Type 0 where
  pub state : Receiver
  pub frames : List Frame
  pub errors : ℕ

abbrev pub note : Verdict → Heard → Heard
note ignored h = h
note corrupt h = record h { errors = suc h.errors }
note (good frame) h = record h { frames = frame ∷ h.frames }

unfoldable pub hear : Receiver → Bytes → Heard
hear r [] = record { state = r; frames = []; errors = 0 }
hear hunting (b ∷ bs) = hear (if b == flag then inside [] else hunting) bs
hear (inside body) (b ∷ bs) =
    let closed = note (judge body) (hear (inside []) bs) in
    let longer = hear (inside (body ++ (b ∷ []))) bs in if b == flag then closed else longer

-- What is heard before joins what is heard after.
abbrev pub follow : Heard → Heard → Heard
follow h k = record { state = k.state; frames = h.frames ++ k.frames; errors = h.errors + k.errors }

note-follow : (v : Verdict) (h k : Heard) → follow (note v h) k ≡ note v (follow h k)
note-follow ignored h k = refl
note-follow corrupt h k = ground arith
note-follow (good f) h k = refl

pub hear-append :
    (r : Receiver) (xs ys : Bytes)
    → hear r (xs ++ ys) ≡ follow (hear r xs) (hear (hear r xs).state ys)
unfolding hear
hear-append r [] ys = ground arith
hear-append hunting (b ∷ xs) ys = hear-append (if b == flag then inside [] else hunting) xs ys
hear-append (inside body) (b ∷ xs) ys = ground (
  arith,
  hear-append (inside []) xs ys,
  hear-append (inside (body ++ (b ∷ []))) xs ys,
  note-follow (judge body) (hear (inside []) xs) (hear (hear (inside []) xs).state ys),
)

-- The bytes of the frame in progress, its opening flag included.
abbrev held : Receiver → ℕ
held hunting = 0
held (inside body) = suc (length body)

-- A frame is in progress and fits a buffer of `m` bytes.
abbrev pub InFrame : ℕ → Receiver → Type 0
InFrame m hunting = ⊥
InFrame m (inside body) = suc (length body) ≤ m

unfoldable pub advance : Receiver → ℕ → Receiver
advance hunting b = if b == flag then inside [] else hunting
advance (inside body) b = if b == flag then inside [] else inside (body ++ (b ∷ []))

-- After each byte a frame is in progress, and it fits.
abbrev pub Fits : ℕ → Receiver → Bytes → Type 0
Fits m r [] = Unit {0}
Fits m r (b ∷ bs) = InFrame m (advance r b) × Fits m (advance r b) bs

note_state : (v : Verdict) (h : Heard) → (note v h).state ≡ h.state
note_state ignored h = refl
note_state corrupt h = refl
note_state (good f) h = refl

hear-state :
    (r : Receiver) (b : ℕ) (bs : Bytes) → (hear r (b ∷ bs)).state ≡ (hear (advance r b) bs).state
unfolding hear advance
hear-state hunting b bs = refl
hear-state (inside body) b bs = ground (arith, note_state (judge body) (hear (inside []) bs))

pub Fits-append :
    (m : ℕ) (r : Receiver) (xs ys : Bytes)
    → Fits m r (xs ++ ys)
    → Fits m r xs × Fits m (hear r xs).state ys
unfolding hear
Fits-append m r [] ys h = (tt, h)
Fits-append m r (b ∷ xs) ys h =
    let (front, back) = Fits-append m (advance r b) xs ys h.1 in
    ((h.0, front), rw (hear-state r b xs) back)

-- At the end of bytes that fit, a frame is in progress.
pub Fits-end :
    (m : ℕ) (r : Receiver) (b : ℕ) (bs : Bytes)
    → Fits m r (b ∷ bs)
    → InFrame m (hear r (b ∷ bs)).state
unfolding hear
Fits-end m r b [] h = rw (hear-state r b []) h.0
Fits-end m r b (c ∷ bs) h = rw (hear-state r b (c ∷ bs)) (Fits-end m (advance r b) c bs h.1)
