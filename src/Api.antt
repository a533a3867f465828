-- ===== src/Api.antt =====
-- api/: the service around a session.
pub mod Events
pub mod Jobs
pub mod Service
pub mod Stream
