-- ===== src/Activity.antt =====
-- src/daemon/session_activity/mod.rs: which session of the user may be served, and how that is told to
-- the threads that type.
pub mod Decisions
pub mod Publication
pub mod Leases
pub mod Known
pub mod Loads
pub mod Safety
