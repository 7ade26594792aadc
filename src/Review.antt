-- ===== src/Review.antt =====
-- crates/nits-review-core: comments and their anchors, renders, and the event store.
pub mod Anchor
pub mod Diff
pub mod Patch
pub mod Reanchor
pub mod Render
pub mod Replay
