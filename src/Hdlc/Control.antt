-- ===== src/Hdlc/Control.antt =====
-- openaisg/hdlc.py: the control byte of a frame, its kind and its sequence numbers.
pub mod Table
mod Tests
use openaisg.Common.{
  ℕ, ◌+◌, ◌*◌, ◌/◌, ◌^◌, Bool, true, false, not, ◌==◌, if◌then◌else◌, bit_and, bit_or,
}

-- U-frame control bytes, and the P/F bit.
abbrev pub ctrl_snrm : ℕ
ctrl_snrm = 0x83

abbrev pub ctrl_xid : ℕ
ctrl_xid = 0xaf

abbrev pub ctrl_ua : ℕ
ctrl_ua = 0x63

abbrev pub ctrl_disc : ℕ
ctrl_disc = 0x43

abbrev pub ctrl_dm : ℕ
ctrl_dm = 0x0f

abbrev pub ctrl_frmr : ℕ
ctrl_frmr = 0x87

abbrev pub pf : ℕ
pf = 0x10

pub data Kind : Type 0 where
  i_frame rr rnr rej srej u_frame : Kind

-- `_S_TYPES[i]` for two bits `i`.
s_type : ℕ → Kind
s_type i = if i == 0 then rr else if i == 1 then rnr else if i == 2 then rej else srej

unfoldable pub kind : ℕ → Kind
unfolding s_type
kind ctrl =
    if bit_and ctrl 0x01 == 0
    then i_frame
    else if bit_and ctrl 0x03 == 0x01
    then s_type (bit_and (ctrl / 2 ^ 2) 0x03)
    else u_frame

unfoldable pub ns_of : ℕ → ℕ
ns_of ctrl = bit_and (ctrl / 2 ^ 1) 7

unfoldable pub nr_of : ℕ → ℕ
nr_of ctrl = bit_and (ctrl / 2 ^ 5) 7

-- `ctrl & ~PF`, for a byte `ctrl`.
unfoldable pub without_pf : ℕ → ℕ
without_pf ctrl = bit_and ctrl 0xef

-- The control byte of the I-frame that the link sends, and of its RR with P set or clear.
unfoldable pub i_ctrl : ℕ → ℕ → ℕ
i_ctrl vs vr = bit_or (bit_or (vs * 2 ^ 1) (vr * 2 ^ 5)) pf

unfoldable pub rr_ctrl : ℕ → Bool → ℕ
rr_ctrl vr poll = bit_or (bit_or 0x01 (vr * 2 ^ 5)) (if poll then pf else 0)
