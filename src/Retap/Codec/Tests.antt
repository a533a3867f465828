-- ===== src/Retap/Codec/Tests.antt =====
-- Runs on the integers of openaisg/retap.py's messages.
use openaisg.Common.{◌≡◌, refl, [], ◌∷◌}
use openaisg.Common.Int.{pos, negsuc}
use openaisg.Errors.{ok}
use openaisg.Retap.Codec.{pattern_of, pack_i16}

-- 4.5 degrees, as in docs/protocol.md, and -0.1 degrees.
pack_i16_positive : pack_i16 (pos 45) ≡ ok (0x2d ∷ 0 ∷ [])
unfolding pack_i16 pattern_of
pack_i16_positive = refl

pack_i16_negative : pack_i16 (negsuc 0) ≡ ok (0xff ∷ 0xff ∷ [])
unfolding pack_i16 pattern_of
pack_i16_negative = refl
