-- ===== src/Hdlc/Framing/Stuffing.antt =====
-- `stuff` against `unstuff` of openaisg/hdlc.py.
use openaisg.Common.{◌≡◌, ◌≢◌, refl, arith, [], ◌∷◌, Bytes, All}
use openaisg.Hdlc.Framing.{flag, stuff, unstuff}

abbrev pub NoFlag : Bytes → Type 0
NoFlag = All (λ b. b ≢ flag)

-- What was stuffed holds no flag byte.
pub stuff-NoFlag : (bs : Bytes) → NoFlag (stuff bs)
unfolding stuff
stuff-NoFlag [] = tt
stuff-NoFlag (b ∷ bs) = ground (arith, stuff-NoFlag bs)

-- `unstuff` gives back what was stuffed, whatever the bytes are.
pub unstuff-stuff : (bs : Bytes) → unstuff (stuff bs) ≡ bs
unfolding unstuff stuff
unstuff-stuff [] = refl
unstuff-stuff (b ∷ bs) = ground (arith, unstuff-stuff bs)
