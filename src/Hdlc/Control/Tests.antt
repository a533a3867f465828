-- ===== src/Hdlc/Control/Tests.antt =====
-- Runs on control bytes of openaisg/hdlc.py.
use openaisg.Common.{◌≡◌, refl}
use openaisg.Hdlc.Control.{kind, u_frame, ctrl_frmr, ctrl_dm}

kind_frmr : kind ctrl_frmr ≡ u_frame
unfolding kind
kind_frmr = refl

kind_dm : kind ctrl_dm ≡ u_frame
unfolding kind
kind_dm = refl
