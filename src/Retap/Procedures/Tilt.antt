-- ===== src/Retap/Procedures/Tilt.antt =====
-- openaisg/retap.py: `set_tilt` and `get_tilt` against a device that keeps a tilt.
use openaisg.Common.{
  ℕ, ◌^◌, ◌<◌, ◌≡◌, ap, ◌∙◌, arith, inl, inr, [], ◌∷◌, ◌++◌, Option, none, some, Bytes, length,
  take,
}
use openaisg.Common.Int.{ℤ}
use openaisg.Errors.{struct_error, ok, err, lift, after_ok, after_err}
use openaisg.Retap.Codec.{
  pack_i16, unpack_i16, set_tilt_code, get_tilt_code, ant_set_tilt, ant_get_tilt,
}
use openaisg.Retap.Codec.RoundTrip.{InI16, unpack_i16-pack_i16}
use openaisg.Retap.Procedures.{Transport, Ret, prefix_of, code_for, proc, set_tilt, get_tilt}
use openaisg.Retap.Procedures.Replies.{message, reply, proc-reply}

abbrev set_code : Ret → ℕ
set_code ret = code_for ret.antenna set_tilt_code ant_set_tilt

abbrev get_code : Ret → ℕ
get_code ret = code_for ret.antenna get_tilt_code ant_get_tilt

-- A link to a device that keeps the two octets of the last tilt it was set to, and replies with them
-- when it is asked for its tilt.
pub record TiltDevice {L : Type 0} (t : Transport L) (ret : Ret) : Type 0 where
  pub store : ℕ → ℕ → L → L
  pub answers_set :
      (lo hi : ℕ) (l : L)
      → t.request ret.addr (message ret.antenna (set_code ret) (lo ∷ hi ∷ [])) 60000 l
        ≡ (ok (reply ret.antenna (set_code ret) 0 []), store lo hi l)
  pub answers_get :
      (lo hi : ℕ) (l : L)
      → t.request ret.addr (message ret.antenna (get_code ret) []) 3000 (store lo hi l)
        ≡ (ok (reply ret.antenna (get_code ret) 0 (lo ∷ hi ∷ [])), store lo hi l)

fits :
    (antenna : Option ℕ) (payload : Bytes)
    → length payload < 8
    → length (prefix_of antenna ++ payload) < 2 ^ 16
fits none payload h = omega arith
fits (some antenna) payload h = omega arith

module _ {L : Type 0} (t : Transport L) (ret : Ret) where
  -- A tilt from -3276.8 to 3276.7 degrees that is set on a device that keeps it is the tilt that is
  -- read back, its sign included, and both procedures succeed.
  pub set_tilt-get_tilt :
      (d : TiltDevice t ret) (n : ℤ) (l : L)
      → InI16 n
      → (lo : ℕ) × (hi : ℕ) × (set_tilt t ret n l ≡ (ok [], d.store lo hi l))
        × (get_tilt t ret (d.store lo hi l) ≡ (ok n, d.store lo hi l))
  unfolding set_tilt get_tilt
  set_tilt-get_tilt d n l h = elim (unpack_i16-pack_i16 n) [
    | inr p ↦ absurd (p.0 h)
    | inl (i, (lo, hi, packed, lo_IsByte, hi_IsByte, unpacked)) ↦
        let l' : L = d.store lo hi l in
        (
          lo,
          hi,
          after_ok (lift (pack_i16 n)) (λ payload. proc t ret (set_code ret) payload 60000) l
                (ap (λ r. (r, l)) packed)
              ∙ proc-reply t ret (set_code ret) 60000 0 (lo ∷ hi ∷ []) [] l l'
                  (fits ret.antenna (lo ∷ hi ∷ []) (omega arith)) (d.answers_set lo hi l),
          after_ok (proc t ret (get_code ret) [] 3000) (λ b. lift (unpack_i16 (take 2 b))) l'
                (proc-reply t ret (get_code ret) 3000 0 [] (lo ∷ hi ∷ []) l' l'
                  (fits ret.antenna [] (omega arith)) (d.answers_get lo hi l))
              ∙ ap (λ r. (r, l')) unpacked,
        )
  ]

  -- Setting a tilt outside -3276.8 to 3276.7 degrees raises `struct.error`, and the link is not
  -- touched.
  pub set_tilt_refused : (n : ℤ) (l : L) → ¬ (InI16 n) → set_tilt t ret n l ≡ (err struct_error, l)
  unfolding set_tilt
  set_tilt_refused n l h = elim (unpack_i16-pack_i16 n) [
    | inl p ↦ absurd (h p.0)
    | inr p ↦
        after_err (lift (pack_i16 n)) (λ payload. proc t ret (set_code ret) payload 60000) l
          (ap (λ r. (r, l)) p.1)
  ]
