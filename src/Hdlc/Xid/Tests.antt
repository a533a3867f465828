-- ===== src/Hdlc/Xid/Tests.antt =====
-- Runs on XID payloads of openaisg/hdlc.py, with the reply to a scan in docs/protocol.md.
use openaisg.Common.{ℕ, ◌≡◌, refl, [], ◌∷◌, none, some, Bytes}
use openaisg.Hdlc.Xid.{
  Params, Dict, pi_unique_id, pi_vendor_code, pi_device_type, encode_field, xid_encode, get,
  decode_loop, xid_decode,
}
use openaisg.Hdlc.Xid.RoundTrip.{latest, xid_decode-encode}

abbrev reply : Bytes
reply = 0x81 ∷ 0xf0 ∷ 10 ∷ 1 ∷ 1 ∷ b'A' ∷ 6 ∷ 2 ∷ b'A' ∷ b'S' ∷ 4 ∷ 1 ∷ 1 ∷ []

-- A value that is cut short by the field, and a last byte without a length.
xid_decode_short : xid_decode (0x81 ∷ 0xf0 ∷ 3 ∷ 1 ∷ 9 ∷ 7 ∷ []) ≡ some ((1, 7 ∷ []) ∷ [])
unfolding xid_decode decode_loop
xid_decode_short = refl

abbrev params : Params
params =
    (pi_unique_id, b'A' ∷ []) ∷ (pi_vendor_code, b'A' ∷ b'S' ∷ []) ∷ (pi_device_type, 1 ∷ []) ∷ []

xid_decode-encode_example :
    (d : Dict) × (xid_decode reply ≡ some d) × ((pi : ℕ) → get d pi ≡ latest params pi none)
xid_decode-encode_example = xid_decode-encode params reply (unfold xid_encode encode_field in refl)
