-- ===== src/Store.antt =====
-- crates/nits-review-core/src/store and the operations of `Core` on it: the event log, the views
-- that are folded from it, and the comment, thread and review operations that append to it.
pub mod Events
pub mod Views
pub mod Log
pub mod Core
pub mod Consistent
pub mod Index
pub mod Comments
pub mod Reanchoring
