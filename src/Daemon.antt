-- ===== src/Daemon.antt =====
-- crates/nitsd: the daemon.
pub mod Codec
pub mod Admission
