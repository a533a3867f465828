-- ===== src/Hdlc/Xid.antt =====
-- openaisg/hdlc.py: the parameters of an XID frame.
pub mod RoundTrip
mod Tests
use openaisg.Common.{
  ℕ, zero, suc, ◌+◌, ◌-◌, Bool, true, false, ◌||◌, not, ◌&&◌, List, [], ◌∷◌, ◌++◌, Option, none,
  some, ltb, leb, ◌==◌, if◌then◌else◌, length, take, drop, get_or, Bytes,
}
use mathlib.Core.Option

abbrev pub xid_fi : ℕ
xid_fi = 0x81

abbrev pub xid_gi : ℕ
xid_gi = 0xf0

abbrev pub pi_unique_id : ℕ
pi_unique_id = 1

abbrev pub pi_hdlc_addr : ℕ
pi_hdlc_addr = 2

abbrev pub pi_bitmask : ℕ
pi_bitmask = 3

abbrev pub pi_device_type : ℕ
pi_device_type = 4

abbrev pub pi_vendor_code : ℕ
pi_vendor_code = 6

-- A list of `(pi, pv)` pairs.
abbrev pub Params : Type 0
Params = List (ℕ × Bytes)

-- The loop of `xid_encode`; `none` is the `ValueError` of `bytes([pi, len(pv)])`.
pub encode_field : Params → Option Bytes
encode_field [] = some []
encode_field ((pi, pv) ∷ params) =
    if ltb pi 256 && ltb (length pv) 256
    then Option.map (λ rest. pi ∷ length pv ∷ (pv ++ rest)) (encode_field params)
    else none

-- `none` is the `ValueError` of a field that is longer than 255 bytes, or of one of its parameters.
pub xid_encode : Params → Option Bytes
xid_encode params = elim (encode_field params) [
  | none ↦ none
  | some field ↦
      if ltb (length field) 256 then some (xid_fi ∷ xid_gi ∷ length field ∷ field) else none
]

-- A dictionary from parameter ids to values: a later entry for an id stands in front and hides the
-- earlier ones.
abbrev pub Dict : Type 0
Dict = List (ℕ × Bytes)

-- `params.get(pi)`.
pub get : Dict → ℕ → Option Bytes
get [] pi = none
get ((k, v) ∷ d) pi = if k == pi then some v else get d pi

-- The `while` loop of `xid_decode` over `field[i:]`; `none` means that the fuel ran out.
pub decode_loop : ℕ → Bytes → Dict → Option Dict
decode_loop zero rest params = none
decode_loop (suc fuel) (pi ∷ pl ∷ rest) params =
    let more = decode_loop fuel (drop pl rest) ((pi, take pl rest) ∷ params) in more
decode_loop (suc fuel) rest params = some params

-- `none` is the `FrameError`; the fuel is enough for a pass that takes two bytes at least.
pub xid_decode : Bytes → Option Dict
xid_decode (fi ∷ gi ∷ gl ∷ rest) =
    let field = take gl rest in
    if not (fi == xid_fi) || not (gi == xid_gi)
    then none
    else decode_loop (suc (length field)) field []
xid_decode payload = none
