-- ===== src/Link/Scan/Probes.antt =====
-- How many frames `scan` of openaisg/link.py sends.
use openaisg.Common.{
  ℕ, zero, suc, ◌+◌, ◌-◌, ◌^◌, ◌≤◌, ◌≡◌, ap, arith, true, false, List, [], ◌∷◌, Option, none,
  Option-cases, inl, inr, Bytes, bit_or,
}
use native.Mathlib.Nat.{pow-suc}
use openaisg.Errors.{frame_error, unresolved, Result, ok, err, Action, ◌>>=◌}
use openaisg.Hdlc.Framing.{Frame, build_frame}
use openaisg.Hdlc.Control.{ctrl_xid, pf}
use openaisg.Hdlc.Xid.{xid_encode, pi_unique_id, pi_bitmask}
use openaisg.Link.Manage.{Serial, Station, Device, xfer, command}
use openaisg.Link.Scan.{collided, next_uid, next_mask, devices_of, scan_once, probe, scan}

-- A count of the frames that a port has sent at most.
pub record Counts {S : Type 0} (serial : Serial S) (sent : S → ℕ) : Type 0 where
  pub one_more : (frame : Bytes) (s : S) → sent (serial.transfer frame s).1 ≤ sent s + 1

pow_positive : (n : ℕ) → 1 ≤ 2 ^ n
pow_positive zero = omega arith
pow_positive (suc n) = omega (arith, pow-suc 2 n, pow_positive n)

module _ {S : Type 0} (serial : Serial S) (sent : S → ℕ) (c : Counts serial sent) where
  command-sent :
      (addr ctrl : ℕ) (payload : Bytes) (timeout : Option ℕ) (st : Station S)
      → sent (command serial addr ctrl payload timeout st).1.port ≤ sent st.port + 1
  unfolding command xfer
  command-sent addr ctrl payload timeout st =
      ground (arith, c.one_more (build_frame addr ctrl payload) st.port)

  lift-sent :
      (x : Result (List Frame) × Station S) (n : ℕ)
      → sent x.1.port ≤ n
      → let y : Result (List Device) × Station S = elim x.0 [
        | ok frames ↦ (devices_of frames, x.1)
        | err e ↦ (err e, x.1)
      ] in
        sent y.1.port ≤ n
  lift-sent (ok frames, st) n h = h
  lift-sent (err e, st) n h = h

  scan_once-sent :
      (uid mask : Bytes) (st : Station S)
      → sent (scan_once serial uid mask st).1.port ≤ sent st.port + 1
  unfolding scan_once
  scan_once-sent uid mask st =
      elim (Option-cases (xid_encode ((pi_unique_id, uid) ∷ (pi_bitmask, mask) ∷ []))) [
        | inl q ↦ rw (scan_once, q) (omega arith)
        | inr (payload, q) ↦
            rw (scan_once, q)
              (lift-sent (command serial 0xff (bit_or ctrl_xid pf) payload none st) _
                (command-sent 0xff (bit_or ctrl_xid pf) payload none st))
      ]

  collided-sent :
      (x : Result (List Device) × Station S) (results : List Device)
      (split : Station S → Result (List Device) × Station S) (n m : ℕ)
      → sent x.1.port ≤ n
      → ((st : Station S) → sent (split st).1.port ≤ sent st.port + m)
      → sent (collided x results split).1.port ≤ n + m
  collided-sent (ok devs, st) results split n m h k = omega (arith, h)
  collided-sent (err frame_error, st) results split n m h k = omega (arith, h, k st)
  collided-sent (err e, st) results split n m h k = omega (arith, h)

  twice-sent :
      (x : Result (List Device) × Station S) (next : List Device → Action (Station S) (List Device))
      (n m : ℕ)
      → sent x.1.port ≤ n
      → ((results : List Device) (st : Station S)
          → sent (next results st).1.port ≤ sent st.port + m)
      → let y : Result (List Device) × Station S = elim x.0 [
        | ok r ↦ next r x.1
        | err e ↦ (err e, x.1)
      ] in
        sent y.1.port ≤ n + m
  twice-sent (ok r, st) next n m h k = omega (arith, h, k r st)
  twice-sent (err e, st) next n m h k = omega (arith, h)

  probe-sent :
      (left : ℕ) (uid mask : Bytes) (depth : ℕ) (results : List Device) (st : Station S)
      → sent (probe serial left uid mask depth results st).1.port + 1
        ≤ sent st.port + 2 ^ (left + 1)
  unfolding probe
  probe-sent zero uid mask depth results st = omega (
    arith,
    collided-sent (scan_once serial uid mask st) results (λ st'. (err unresolved, st'))
        (sent st.port + 1) 0 (scan_once-sent uid mask st) (λ st'. omega arith),
  )
  probe-sent (suc left) uid mask depth results st =
      let m : ℕ = 2 ^ (left + 1) - 1 in
      let both : (st' : Station S)
          → sent
              ((probe serial left (next_uid false uid mask depth) (next_mask mask depth) (suc depth)
                    results
                  >>= probe serial left (next_uid true uid mask depth) (next_mask mask depth)
                      (suc depth))
                st').1.port
            ≤ sent st'.port + (m + m) =
        λ st'. omega (
          arith,
          twice-sent
              (probe serial left (next_uid false uid mask depth) (next_mask mask depth) (suc depth)
                results st')
              (probe serial left (next_uid true uid mask depth) (next_mask mask depth) (suc depth))
              (sent st'.port + m) m
              (omega (
                arith,
                probe-sent left (next_uid false uid mask depth) (next_mask mask depth) (suc depth)
                    results st',
              ))
              (λ r st''. omega (
                arith,
                probe-sent left (next_uid true uid mask depth) (next_mask mask depth) (suc depth) r
                    st'',
              )),
        ) in
      let same : suc left + 1 ≡ suc (left + 1) = omega arith in
      omega (
        arith,
        ap (λ (k : ℕ). 2 ^ k) same,
        pow-suc 2 (left + 1),
        pow_positive (left + 1),
        collided-sent (scan_once serial uid mask st) results
            (probe serial left (next_uid false uid mask depth) (next_mask mask depth) (suc depth)
                results
              >>= probe serial left (next_uid true uid mask depth) (next_mask mask depth)
                  (suc depth))
            (sent st.port + 1) (m + m) (scan_once-sent uid mask st) both,
      )

  -- Where a port sends at most one frame for each frame that is written to it, a scan sends fewer
  -- than two to the power of one more than `max_depth` frames, whatever is answered, and then ends.
  pub scan-sent :
      (max_depth : ℕ) (st : Station S)
      → sent (scan serial max_depth st).1.port + 1 ≤ sent st.port + 2 ^ (max_depth + 1)
  unfolding scan
  scan-sent max_depth st = probe-sent max_depth [] [] 0 [] st
