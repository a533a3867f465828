-- ===== src/Hdlc.antt =====
-- openaisg/hdlc.py: HDLC framing for AISG v2.0.
pub mod Crc
pub mod Framing
pub mod Deframer
pub mod Control
pub mod Xid
