-- ===== src/Retap/Procedures/Replies.antt =====
-- How openaisg/retap.py's `_proc` reads the device's reply.
use openaisg.Common.{
  ℕ, ◌+◌, ◌*◌, ◌/◌, ◌%◌, ◌^◌, ◌<◌, ◌≤◌, ◌≡◌, refl, ap, ◌∙◌, arith, [], ◌∷◌, ◌++◌, Option, none,
  some, ◌==◌, ==_refl, if◌then◌else◌, Bytes, length, take, take_all, length-append,
}
use openaisg.Errors.{
  Error, ret_error, struct_error, Result, ok, err, Action, lift, ◌>>=◌, after_ok, after_err,
}
use openaisg.Retap.Codec.{pack_u16}
use openaisg.Retap.Procedures.{Transport, Ret, prefix_of, check_body, parse_response, proc}

-- A message of a procedure: its code, the number of data octets, and these, antenna number first.
abbrev pub message : Option ℕ → ℕ → Bytes → Bytes
message antenna code payload =
    let body = prefix_of antenna ++ payload in code ∷ length body % 256 ∷ length body / 256 ∷ body

-- A device's reply with a return code and its data.
abbrev pub reply : Option ℕ → ℕ → ℕ → Bytes → Bytes
reply antenna code rc d = message antenna code (rc ∷ d)

-- What a procedure makes of a return code.
abbrev verdict : ℕ → ℕ → Bytes → Result Bytes
verdict code rc d = if rc == 0 then ok d else err (ret_error code rc)

-- The two length octets give the whole body back.
take_counted : (xs : Bytes) → take (length xs % 256 + length xs / 256 * 256) xs ≡ xs
take_counted xs = counted (length xs % 256 + length xs / 256 * 256) (omega arith)
  where
    counted : (n : ℕ) → n ≡ length xs → take n xs ≡ xs
    counted n e = ap (λ m. take m xs) e ∙ take_all xs

parse_response-reply :
    (antenna : Option ℕ) (code rc : ℕ) (d : Bytes)
    → parse_response antenna code (reply antenna code rc d) ≡ verdict code rc d
unfolding parse_response check_body
parse_response-reply none code rc d = rw (==_refl code, take_counted (rc ∷ d)) refl
parse_response-reply (some antenna) code rc d =
    rw (==_refl code, take_counted (antenna ∷ rc ∷ d)) refl

module _ {L : Type 0} (t : Transport L) where
  packed :
      (antenna : Option ℕ) (payload : Bytes)
      → length (prefix_of antenna ++ payload) < 2 ^ 16
      → pack_u16 (length (prefix_of antenna) + length payload)
        ≡ ok (
            length (prefix_of antenna ++ payload) % 256
            ∷ length (prefix_of antenna ++ payload) / 256
            ∷ [])
  unfolding pack_u16
  packed antenna payload h = ground (arith, length-append (prefix_of antenna) payload)

  -- The part of `_proc` behind the request.
  receive : Ret → ℕ → Bytes → Action L Bytes
  receive ret code resp = lift (parse_response ret.antenna code resp)

  requested : Ret → ℕ → ℕ → Bytes → Action L Bytes
  requested ret code timeout payload = t.request ret.addr (message ret.antenna code payload) timeout

  -- The request that `_proc` makes, where the size fits its two octets.
  proc-request :
      (ret : Ret) (code timeout : ℕ) (payload : Bytes) (l : L)
      → length (prefix_of ret.antenna ++ payload) < 2 ^ 16
      → proc t ret code payload timeout l
        ≡ (requested ret code timeout payload >>= receive ret code) l
  unfolding proc requested receive
  proc-request ret code timeout payload l h = rw (packed ret.antenna payload h, proc)

  -- Where the message fits its two length octets and the device replies to it with a return code
  -- and data, the procedure gives the data if the code is 0, and raises a `RetError` with the code
  -- if it is not.
  pub proc-reply :
      (ret : Ret) (code timeout rc : ℕ) (payload d : Bytes) (l l' : L)
      → length (prefix_of ret.antenna ++ payload) < 2 ^ 16
      → t.request ret.addr (message ret.antenna code payload) timeout l
        ≡ (ok (reply ret.antenna code rc d), l')
      → proc t ret code payload timeout l ≡ (verdict code rc d, l')
  unfolding requested receive
  proc-reply ret code timeout rc payload d l l' h e =
      proc-request ret code timeout payload l h
      ∙ after_ok (requested ret code timeout payload) (receive ret code) l e
      ∙ ap (λ r. (r, l')) (parse_response-reply ret.antenna code rc d)

  -- Where the message fits its two length octets, what the request raises is raised by the
  -- procedure.
  proc_raises :
      (ret : Ret) (code timeout : ℕ) (payload : Bytes) (e : Error) (l l' : L)
      → length (prefix_of ret.antenna ++ payload) < 2 ^ 16
      → t.request ret.addr (message ret.antenna code payload) timeout l ≡ (err e, l')
      → proc t ret code payload timeout l ≡ (err e, l')
  unfolding requested
  proc_raises ret code timeout payload e l l' h q =
      proc-request ret code timeout payload l h
      ∙ after_err (requested ret code timeout payload) (receive ret code) l q

-- A message whose data do not fit its two length octets raises `struct.error`, and the link is not
-- touched.
proc_too_long :
    {L : Type 0} (t : Transport L) (ret : Ret) (code timeout : ℕ) (payload : Bytes) (l : L)
    → 2 ^ 16 ≤ length (prefix_of ret.antenna ++ payload)
    → proc t ret code payload timeout l ≡ (err struct_error, l)
unfolding proc pack_u16
proc_too_long t ret code timeout payload l h =
    ground (arith, length-append (prefix_of ret.antenna) payload)
