-- ===== src/Link.antt =====
-- openaisg/link.py: the primary station's side of the link.
pub mod State
pub mod Exchange
pub mod Pump
pub mod Manage
pub mod Request
pub mod Scan
