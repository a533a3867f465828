-- ===== src/Hdlc/Control/Table.antt =====
-- Facts about the control bytes of openaisg/hdlc.py that hold for each of the 256 bytes.
use openaisg.Common.{
  ℕ, ◌+◌, ◌*◌, ◌/◌, ◌%◌, ◌<◌, ◌≡◌, ◌⊎◌, refl, ltb, arith, Bool, true, false, ◌&&◌, ◌==◌,
  if◌then◌else◌,
}
use openaisg.Common.Bits.{all_below, all_below_sound, and_seven, and_three, and_one}
use openaisg.Hdlc.Control.{
  Kind, kind, ns_of, nr_of, i_frame, rr, rnr, rej, srej, u_frame, i_ctrl, rr_ctrl,
}

ns_of-lt : (ctrl : ℕ) → ns_of ctrl < 8
unfolding ns_of
ns_of-lt ctrl = omega (arith, and_seven (ctrl / 2))

nr_of-lt : (ctrl : ℕ) → nr_of ctrl < 8
unfolding nr_of
nr_of-lt ctrl = omega (arith, and_seven (ctrl / 32))

-- The kind of a control byte is the one of ISO/IEC 13239: an even byte is an I-frame, a remainder
-- of 1 by 4 is an S-frame whose type is in the next two bits, and a remainder of 3 by 4 is a
-- U-frame.
kind_classes :
    (ctrl : ℕ)
    → ((ctrl % 2 ≡ 0) × (kind ctrl ≡ i_frame))
      ⊎ ((ctrl % 16 ≡ 1) × (kind ctrl ≡ rr))
      ⊎ ((ctrl % 16 ≡ 5) × (kind ctrl ≡ rnr))
      ⊎ ((ctrl % 16 ≡ 9) × (kind ctrl ≡ rej))
      ⊎ ((ctrl % 16 ≡ 13) × (kind ctrl ≡ srej))
      ⊎ ((ctrl % 4 ≡ 3) × (kind ctrl ≡ u_frame))
unfolding kind
kind_classes ctrl = ground (arith, and_one ctrl, and_three ctrl, and_three (ctrl / 4))

is_kind : Kind → Kind → Bool
is_kind i_frame i_frame = true
is_kind rr rr = true
is_kind u_frame u_frame = true
is_kind _ _ = false

-- Sequence numbers of three bits, in one number.
i_ctrl_table :
    all_below 64 (λ n.
      let c = i_ctrl (n / 8) (n % 8) in
      (ns_of c == n / 8) && (nr_of c == n % 8) && is_kind (kind c) i_frame && ltb c 256)
    ≡ true
unfolding all_below i_ctrl ns_of nr_of kind is_kind
i_ctrl_table = refl

rr_ctrl_row : Bool → ℕ → Bool
rr_ctrl_row poll vr =
    let c = rr_ctrl vr poll in
    (nr_of c == vr) && is_kind (kind c) rr && ltb c 256 && (c / 16 % 2 == (if poll then 1 else 0))

rr_ctrl_table : (poll : Bool) → all_below 8 (rr_ctrl_row poll) ≡ true
unfolding all_below rr_ctrl nr_of kind is_kind rr_ctrl_row
rr_ctrl_table true = refl
rr_ctrl_table false = refl

is_kind→eq : (k j : Kind) → is_kind k j ≡ true → k ≡ j
unfolding is_kind
is_kind→eq k j h = ground arith

-- The control byte of an I-frame that is built of two sequence numbers below 8 is a byte, and is
-- read as an I-frame with these numbers.
pub i_ctrl_fields :
    (vs vr : ℕ)
    → vs < 8
    → vr < 8
    → (kind (i_ctrl vs vr) ≡ i_frame)
      × (ns_of (i_ctrl vs vr) ≡ vs)
      × (nr_of (i_ctrl vs vr) ≡ vr)
      × (i_ctrl vs vr < 256)
i_ctrl_fields vs vr hs hr = ground (
  arith,
  all_below_sound 64 _ (vs * 8 + vr) i_ctrl_table,
  cell,
  is_kind→eq (kind (i_ctrl vs vr)) i_frame,
)
  where
    cell : ((vs * 8 + vr) / 8 ≡ vs) × ((vs * 8 + vr) % 8 ≡ vr)
    cell = omega arith

-- The control byte of an RR that is built of a sequence number below 8 is a byte, is read as an RR
-- with that number, and has the P bit exactly where it polls.
rr_ctrl_fields :
    (vr : ℕ) (poll : Bool)
    → vr < 8
    → (kind (rr_ctrl vr poll) ≡ rr)
      × (nr_of (rr_ctrl vr poll) ≡ vr)
      × (rr_ctrl vr poll < 256)
      × (rr_ctrl vr poll / 16 % 2 ≡ (if poll then 1 else 0))
unfolding rr_ctrl_row
rr_ctrl_fields vr poll h = ground (
  arith,
  all_below_sound 8 (rr_ctrl_row poll) vr (rr_ctrl_table poll) h,
  is_kind→eq (kind (rr_ctrl vr poll)) rr,
)
