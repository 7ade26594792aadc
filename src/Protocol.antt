-- ===== src/Protocol.antt =====
-- crates/nits-protocol: the validated types, the domain types and the versions of the wire.
pub mod Lines
pub mod Domain
pub mod Author
pub mod Changes
pub mod Gaps
