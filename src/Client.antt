-- ===== src/Client.antt =====
-- crates/nits-client-core: the client's content cache, its view patches and their delivery.
pub mod Cache
pub mod View
pub mod Delivery
