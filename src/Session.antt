-- ===== src/Session.antt =====
-- internal/session: the terminals that the daemon owns.
pub mod Stream
pub mod Screen
pub mod Manager
pub mod Processes
pub mod Sending
