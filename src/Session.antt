-- ===== src/Session.antt =====
-- openaisg/session.py: the long-lived session on a link.
pub mod Router
pub mod Alarms
pub mod Bus
pub mod Worker
