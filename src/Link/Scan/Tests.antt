-- ===== src/Link/Scan/Tests.antt =====
-- Runs of the scan of openaisg/link.py.
use openaisg.Common.{some, ℕ, suc, ◌≡◌, refl, true, false, [], ◌∷◌}
use openaisg.Hdlc.Deframer.{empty}
use openaisg.Link.Manage.{Serial, Station}
use openaisg.Link.Scan.{next_uid, mask_bytes, ljust, or_last}

-- The probe with the tenth bit set, below one with the first nine bits `0x80 0x80`.
next_uid_tenth : next_uid true (0x80 ∷ 0x80 ∷ []) (0xff ∷ 0x80 ∷ []) 9 ≡ 0x80 ∷ 0xc0 ∷ []
unfolding mask_bytes ljust or_last
next_uid_tenth = refl

-- Every frame is answered by a collision.
abbrev colliding : Serial ℕ
colliding = record {
  transfer = λ frame n. (
    some (record { clock = 10; chunk = 0x7e ∷ 1 ∷ 2 ∷ 3 ∷ 4 ∷ 0x7e ∷ []; in_waiting = false } ∷ []),
    suc n,
  );
}

abbrev station : Station ℕ
station = record { port = 0; peers = []; deframer = empty 512; timeout = 1000 }
