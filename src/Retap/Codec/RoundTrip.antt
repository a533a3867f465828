-- ===== src/Retap/Codec/RoundTrip.antt =====
-- Packing against unpacking of the integers of openaisg/retap.py's messages.
use openaisg.Common.{ℕ, ◌-◌, ◌/◌, ◌%◌, ◌^◌, ◌<◌, ◌≡◌, arith, ◌⊎◌, inl, inr, [], ◌∷◌, IsByte}
use native.Mathlib.Decide.{dec_lt}
use openaisg.Common.Int.{ℤ, pos, negsuc}
use openaisg.Errors.{ok, err, struct_error}
use openaisg.Retap.Codec.{pack_i16, unpack_i16}

-- From -32768 to 32767.
abbrev pub InI16 : ℤ → Type 0
InI16 (pos n) = n < 2 ^ 15
InI16 (negsuc n) = n < 2 ^ 15

-- A tilt from -32768 to 32767 tenths of a degree is packed into two bytes that are unpacked to the
-- same tilt, and any other is refused.
pub unpack_i16-pack_i16 :
    (n : ℤ)
    → (InI16 n
        × ((lo : ℕ) × (hi : ℕ) × (pack_i16 n ≡ ok (lo ∷ hi ∷ []))
            × IsByte lo
            × IsByte hi
            × (unpack_i16 (lo ∷ hi ∷ []) ≡ ok n)))
      ⊎ ((¬ (InI16 n)) × (pack_i16 n ≡ err struct_error))
unfolding pack_i16 unpack_i16
unpack_i16-pack_i16 (pos n) = elim (dec_lt n (2 ^ 15)) [
  | yes p ↦ inl (p, (n % 256, n / 256, ground arith, omega arith, omega arith, ground arith))
  | no q ↦ inr (q, ground arith)
]
unpack_i16-pack_i16 (negsuc n) = elim (dec_lt n (2 ^ 15)) [
  | yes p ↦
      let w : ℕ = 2 ^ 16 - 1 - n in
      inl (p, (w % 256, w / 256, ground arith, omega arith, omega arith, ground arith))
  | no q ↦ inr (q, ground arith)
]
