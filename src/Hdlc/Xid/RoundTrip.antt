-- ===== src/Hdlc/Xid/RoundTrip.antt =====
-- Decoding against encoding of the XID payloads of openaisg/hdlc.py.
use openaisg.Common.{
  ℕ, zero, suc, ◌<◌, ◌≡◌, ◌≢◌, refl, ap, arith, ◌||◌, not, [], ◌∷◌, ◌++◌, Option, none, some, ◌==◌,
  if◌then◌else◌, length, take, drop, take-append, take_all, drop-append, length-append, length-drop,
  Bytes, Option-cases, inl, inr, ◌⊎◌, Bool-cases,
}
use openaisg.Hdlc.Xid.{
  xid_fi, xid_gi, Params, Dict, encode_field, xid_encode, get, decode_loop, xid_decode,
}

-- The value that the last of the parameters with an id gives it, over an earlier one.
abbrev pub latest : Params → ℕ → Option Bytes → Option Bytes
latest [] pi earlier = earlier
latest ((k, v) ∷ params) pi earlier = latest params pi (if k == pi then some v else earlier)

abbrev store : Params → Dict → Dict
store [] d = d
store ((k, v) ∷ params) d = store params ((k, v) ∷ d)

get-store :
    (params : Params) (d : Dict) (pi : ℕ) → get (store params d) pi ≡ latest params pi (get d pi)
unfolding get
get-store [] d pi = refl
get-store ((k, v) ∷ params) d pi = get-store params ((k, v) ∷ d) pi

-- One parameter of a field that was encoded.
encode_field-cons :
    (pi : ℕ) (pv : Bytes) (params : Params) (field : Bytes)
    → encode_field ((pi, pv) ∷ params) ≡ some field
    → (rest : Bytes) × (encode_field params ≡ some rest) × (field ≡ pi ∷ length pv ∷ (pv ++ rest))
unfolding encode_field
encode_field-cons pi pv params field e = elim (Option-cases (encode_field params)) [
  | inl q ↦ ground (arith, q)
  | inr (rest, q) ↦ (rest, q, ground (arith, q))
]

decode_loop-encode :
    (fuel : ℕ) (params : Params) (field : Bytes) (d : Dict)
    → length field < fuel
    → encode_field params ≡ some field
    → decode_loop fuel field d ≡ some (store params d)
unfolding decode_loop encode_field
decode_loop-encode zero params field d h e = absurd (omega arith)
decode_loop-encode (suc fuel) [] field d h e = rw (empty field e)
  where
    empty : (f : Bytes) → encode_field [] ≡ some f → f ≡ []
    empty f q = ground arith
decode_loop-encode (suc fuel) ((pi, pv) ∷ params) field d h e =
    let (rest, e', shape) = encode_field-cons pi pv params field e in
    rw shape (
      rw (take-append pv rest, drop-append pv rest)
        (decode_loop-encode fuel params rest ((pi, pv) ∷ d)
          (omega (arith, ap length shape, length-append {0} pv rest)) e'))

-- With more fuel than bytes the loop ends.
decode_loop_ends :
    (fuel : ℕ) (field : Bytes) (d : Dict)
    → length field < fuel
    → (d' : Dict) × (decode_loop fuel field d ≡ some d')
unfolding decode_loop
decode_loop_ends zero field d h = absurd (omega arith)
decode_loop_ends (suc fuel) [] d h = (d, refl)
decode_loop_ends (suc fuel) (pi ∷ []) d h = (d, refl)
decode_loop_ends (suc fuel) (pi ∷ pl ∷ rest) d h =
    decode_loop_ends fuel (drop pl rest) _ (omega (arith, length-drop pl rest))

-- The shape of a payload that was encoded.
xid_encode-shape :
    (params : Params) (payload : Bytes)
    → xid_encode params ≡ some payload
    → (field : Bytes) × (encode_field params ≡ some field)
      × (payload ≡ xid_fi ∷ xid_gi ∷ length field ∷ field)
unfolding xid_encode
xid_encode-shape params payload e = elim (Option-cases (encode_field params)) [
  | inl q ↦ ground (arith, q)
  | inr (field, q) ↦ (field, q, ground (arith, q))
]

-- Where encoding some parameters succeeds, decoding the payload succeeds too, and gives each
-- parameter id the last value that the parameters give it, and no other id a value.
pub xid_decode-encode :
    (params : Params) (payload : Bytes)
    → xid_encode params ≡ some payload
    → (d : Dict) × (xid_decode payload ≡ some d) × ((pi : ℕ) → get d pi ≡ latest params pi none)
unfolding xid_decode get
xid_decode-encode params payload e =
    let (field, q, shape) = xid_encode-shape params payload e in
    (
      store params [],
      rw (shape, take_all field)
          (decode_loop-encode (suc (length field)) params field [] (omega arith) q),
      get-store params [],
    )

-- Decoding ends on every payload: with parameters where the payload begins with 0x81, 0xF0 and a
-- length byte, and with a `FrameError` where it does not.
pub xid_decode_cases :
    (payload : Bytes)
    → ((gl : ℕ) × (rest : Bytes) × (d : Dict) × (payload ≡ 0x81 ∷ 0xf0 ∷ gl ∷ rest)
        × (xid_decode payload ≡ some d))
      ⊎ (((gl : ℕ) (rest : Bytes) → payload ≢ 0x81 ∷ 0xf0 ∷ gl ∷ rest)
          × (xid_decode payload ≡ none))
unfolding xid_decode
xid_decode_cases [] = inr (λ gl rest e. cc, refl)
xid_decode_cases (a ∷ []) = inr (λ gl rest e. cc, refl)
xid_decode_cases (a ∷ b ∷ []) = inr (λ gl rest e. cc, refl)
xid_decode_cases (a ∷ b ∷ gl ∷ rest) =
    let (d, ends) =
      decode_loop_ends (suc (length (take gl rest))) (take gl rest) [] (omega arith) in
    elim (Bool-cases (not (a == xid_fi) || not (b == xid_gi))) [
      | inl bad ↦ inr (λ gl' rest' e. ground arith, rw bad)
      | inr fine ↦ inl (gl, rest, d, ground arith, rw fine ends)
    ]
