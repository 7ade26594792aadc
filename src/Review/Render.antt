-- ===== src/Review/Render.antt =====
-- crates/nits-review-core/src/render: the pure diff render model.
pub mod Lines
pub mod Chunks
pub mod Rows
pub mod File
pub mod Intraline
