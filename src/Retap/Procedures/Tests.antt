-- ===== src/Retap/Procedures/Tests.antt =====
-- Runs of openaisg/retap.py's procedures against small devices.
use openaisg.Common.{
  ℕ, suc, ◌≡◌, refl, arith, List, [], ◌∷◌, none, some, Bytes, drop, get_or, ◌==◌, if◌then◌else◌,
}
use openaisg.Common.Int.{negsuc}
use openaisg.Errors.{ok}
use openaisg.Retap.Codec.{set_tilt_code, get_tilt_code}
use openaisg.Retap.Procedures.{Transport, Ret, set_tilt, get_tilt}
use openaisg.Retap.Procedures.Replies.{reply}
use openaisg.Retap.Procedures.Tilt.{TiltDevice, set_tilt-get_tilt}
use openaisg.Retap.Procedures.Information.{write_texts}

-- One antenna, and the second antenna of several.
abbrev single : Ret
single = record { addr = 3; antenna = none }

abbrev second : Ret
second = record { addr = 3; antenna = some 2 }

-- A device that keeps the octets of its tilt.
abbrev tilt_transport : Transport Bytes
tilt_transport = record {
  request = λ addr msg timeout l.
      if get_or msg 0 0 == set_tilt_code
      then (ok (reply none set_tilt_code 0 []), drop 3 msg)
      else (ok (reply none get_tilt_code 0 l), l);
}

abbrev tilt_device : TiltDevice tilt_transport single
tilt_device = record {
  store = λ lo hi l. lo ∷ hi ∷ [];
  answers_set = λ lo hi l. refl;
  answers_get = λ lo hi l. refl;
}

set_tilt-get_tilt_example :
    (lo : ℕ) × (hi : ℕ) × (set_tilt tilt_transport single (negsuc 44) [] ≡ (ok [], lo ∷ hi ∷ []))
    × (get_tilt tilt_transport single (lo ∷ hi ∷ []) ≡ (ok (negsuc 44), lo ∷ hi ∷ []))
set_tilt-get_tilt_example =
    set_tilt-get_tilt tilt_transport single tilt_device (negsuc 44) [] (omega arith)

-- A device that counts the requests, and answers each with the return code 0x24.
abbrev busy_transport : Transport ℕ
busy_transport = record {
  request = λ addr msg timeout l. (ok (reply (some 2) 0x80 0x24 []), suc l);
}

-- A device that sends its product number and its serial number, and no more.
abbrev texts : List Bytes
texts = (b'R' ∷ b'E' ∷ b'T' ∷ []) ∷ (b'4' ∷ b'2' ∷ []) ∷ []

abbrev text_transport : Transport ℕ
text_transport = record {
  request = λ addr msg timeout l. (ok (reply none 0x05 0 (write_texts texts)), suc l);
}
