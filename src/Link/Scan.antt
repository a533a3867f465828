-- ===== src/Link/Scan.antt =====
-- openaisg/link.py: `scan_once` and `scan`, the search for unaddressed devices by bisection of their
-- unique identities.
pub mod Probes
pub mod Masks
mod Tests
use openaisg.Common.{
  ℕ, zero, suc, ◌+◌, ◌-◌, ◌%◌, ◌^◌, Bool, true, false, ◌&&◌, ◌||◌, List, [], ◌∷◌, ◌++◌, Option,
  none, some, ltb, ◌==◌, if◌then◌else◌, length, Bytes, bit_or,
}
use openaisg.Errors.{
  Error, frame_error, value_error, index_error, unresolved, Result, ok, err, Action, lift, ◌>>=◌,
}
use openaisg.Hdlc.Framing.{Frame}
use openaisg.Hdlc.Control.{ctrl_xid, pf, without_pf}
use openaisg.Hdlc.Xid.{
  Dict, xid_encode, xid_decode, get, pi_unique_id, pi_bitmask, pi_device_type, pi_vendor_code,
}
use openaisg.Link.Manage.{Serial, Station, Device, command}

-- `p.get(PI_DEVICE_TYPE, b"\xff")[0]`.
device_type_of : Dict → Result ℕ
device_type_of p = elim (get p pi_device_type) [
  | none ↦ ok 0xff
  | some [] ↦ err index_error
  | some (b ∷ bs) ↦ ok b
]

-- `p.get(PI_UNIQUE_ID, b"")`.
unique_id_of : Dict → Bytes
unique_id_of p = elim (get p pi_unique_id) [ none ↦ [] | some uid ↦ uid ]

device_of : Dict → Result Device
unfolding device_type_of unique_id_of
device_of p = elim (device_type_of p) [
  | err e ↦ err e
  | ok device_type ↦ ok (record {
    unique_id = unique_id_of p;
    device_type = some device_type;
    vendor = get p pi_vendor_code;
    address = none;
  })
]

-- One device more in front of those of the later frames.
abbrev and_then : Result Device → Result (List Device) → Result (List Device)
and_then (err e) later = err e
and_then (ok dev) (err e) = err e
and_then (ok dev) (ok devs) = ok (dev ∷ devs)

-- The loop of `scan_once` over the frames.
unfoldable pub devices_of : List Frame → Result (List Device)
unfolding device_of
devices_of [] = ok []
devices_of (f ∷ fs) =
    let later = devices_of fs in
    if without_pf f.ctrl == ctrl_xid
    then elim (xid_decode f.payload) [
      | none ↦ err frame_error
      | some p ↦ and_then (device_of p) later
    ]
    else later

-- `nbytes` in `probe`: one more where the mask is empty or its last byte is full.
pub mask_bytes : Bytes → ℕ
mask_bytes [] = 1
mask_bytes (m ∷ []) = if m == 0xff then 2 else 1
mask_bytes (m ∷ n ∷ mask) = mask_bytes (n ∷ mask) + 1

-- `bs.ljust(n, b"\x00")`.
pub ljust : ℕ → Bytes → Bytes
ljust zero bs = bs
ljust (suc n) [] = 0 ∷ ljust n []
ljust (suc n) (b ∷ bs) = b ∷ ljust n bs

-- `bs[-1] |= bits`.
pub or_last : ℕ → Bytes → Bytes
or_last bits [] = []
or_last bits (b ∷ []) = bit_or b bits ∷ []
or_last bits (b ∷ c ∷ bs) = b ∷ or_last bits (c ∷ bs)

-- `1 << bit` at a depth.
abbrev bit_at : ℕ → ℕ
bit_at depth = 2 ^ (7 - depth % 8)

abbrev pub next_mask : Bytes → ℕ → Bytes
next_mask mask depth = or_last (bit_at depth) (ljust (mask_bytes mask) mask)

-- The identity of the probe with the next bit clear, and set.
abbrev pub next_uid : Bool → Bytes → Bytes → ℕ → Bytes
next_uid false uid mask depth = ljust (mask_bytes mask) uid
next_uid true uid mask depth = or_last (bit_at depth) (ljust (mask_bytes mask) uid)

pub same_bytes : Bytes → Bytes → Bool
same_bytes [] [] = true
same_bytes (b ∷ bs) (c ∷ cs) = b == c && same_bytes bs cs
same_bytes _ _ = false

-- `results[dev.unique_id] = dev`, with the values of the dictionary in its order.
unfoldable pub put : List Device → Device → List Device
unfolding same_bytes
put [] dev = dev ∷ []
put (d ∷ devs) dev = if same_bytes d.unique_id dev.unique_id then dev ∷ devs else d ∷ put devs dev

unfoldable pub put_all : List Device → List Device → List Device
put_all results [] = results
put_all results (dev ∷ devs) = put_all (put results dev) devs

-- `try: self.scan_once(...)`, and the two ways behind it.
abbrev pub collided :
    {S : Type 0}
    → Result (List Device) × Station S
    → List Device
    → (Station S → Result (List Device) × Station S)
    → Result (List Device) × Station S
collided (ok devs, st) results split = (ok (put_all results devs), st)
collided (err frame_error, st) results split = split st
collided (err e, st) results split = (err e, st)

module _ {S : Type 0} (serial : Serial S) where
  pub scan_once : Bytes → Bytes → Action (Station S) (List Device)
  scan_once uid mask st = elim (xid_encode ((pi_unique_id, uid) ∷ (pi_bitmask, mask) ∷ [])) [
    | none ↦ (err value_error, st)
    | some payload ↦
        (command serial 0xff (bit_or ctrl_xid pf) payload none >>= λ frames.
        lift (devices_of frames))
          st
  ]

  -- `probe`, with the depths that are left; the state carries `results`.
  pub probe : ℕ → Bytes → Bytes → ℕ → List Device → Action (Station S) (List Device)
  probe zero uid mask depth results st =
      collided (scan_once uid mask st) results (λ st'. (err unresolved, st'))
  probe (suc left) uid mask depth results st = collided (scan_once uid mask st) results (
      probe left (next_uid false uid mask depth) (next_mask mask depth) (suc depth) results
      >>= probe left (next_uid true uid mask depth) (next_mask mask depth) (suc depth))

  -- `scan(max_depth)`.
  pub scan : ℕ → Action (Station S) (List Device)
  scan max_depth = probe max_depth [] [] 0 []
