-- ===== src/Hdlc/Crc/Tests.antt =====
-- Runs of the frame check sequence of openaisg/hdlc.py.
use openaisg.Common.{◌≡◌, ◌≢◌, refl, arith, [], ◌∷◌}
use openaisg.Hdlc.Crc.{fcs16}
use openaisg.Hdlc.Crc.Detection.{fcs16_detects}

-- The check value of CRC-16/X.25.
x25_check : fcs16 (b'1' ∷ b'2' ∷ b'3' ∷ b'4' ∷ b'5' ∷ b'6' ∷ b'7' ∷ b'8' ∷ b'9' ∷ []) ≡ 0x906e
unfolding fcs16
x25_check = refl

-- Two bytes of a message are swapped.
fcs16_detects_example :
    fcs16 (0xff ∷ 0xbf ∷ 0x81 ∷ 0xf0 ∷ []) ≢ fcs16 (0xff ∷ 0x81 ∷ 0xbf ∷ 0xf0 ∷ [])
fcs16_detects_example =
    fcs16_detects (0xff ∷ []) (0xf0 ∷ []) 0xbf 0x81 0x81 0xbf (omega arith, tt)
      (omega arith, omega arith) (omega arith, omega arith) (λ same. omega (arith, same.0))
