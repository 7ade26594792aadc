-- ===== src/Lib.antt =====
-- Nits, a local code-review tool: a daemon that keeps reviews, comments and rendered diffs, and
-- clients that show them. This library models the parts whose logic decides what a reviewer sees.
--
-- Parts and files (source paths are from the repository's root):
-- - Protocol.Lines, Protocol.Domain: crates/nits-protocol/src/invariants.rs and domain.rs, the line
--   numbers, ranges, anchors and comment states that all other parts exchange.
-- - Review.Anchor: `map_range`, `context_hash` and `effective_anchor` of
--   crates/nits-review-core/src/anchor.rs. The loop over the hunks is `walk_hunks`, with an `i64`
--   offset; `touches`, `splits` and `lies_before` are its tests.
-- - Review.Reanchor: `reanchor` of the same file. It calls Review.Anchor, and Review.Render for
--   the lines of a blob. The closures that read blobs are functions.
-- - Review.Render.Lines: `split_lines` of crates/nits-review-core/src/render/lines.rs.
-- - Review.Replay: `replay_page` of crates/nits-review-core/src/store/replay.rs with the cursors of
--   crates/nits-protocol/src/replay.rs. The table is its rows in key order.
-- - Client.Cache: `ContentCache` of crates/nits-client-core/src/cache.rs, one function for each
--   method; a method that changes the cache returns the new one. Client.Cache.Keys: its keys.
-- - Client.View: `ViewPatch`, `ViewModel` and `ViewDelta` of crates/nits-client-core/src/patch.rs
--   and view.rs, and `ViewSection` of crates/nits-protocol/src/rpc.rs.
-- - Review.Patch: crates/nits-review-core/src/patch.rs, the unified diffs of suggestions. Parse is the
--   parser, Apply the application, Preview the numbered lines; Applies says what a patch says of two
--   files.
-- - Protocol.Gaps: `Expansions` of crates/nits-protocol/src/domain.rs and `GapTable` of
--   crates/nits-protocol/src/render.rs, the hidden runs of a diff.
-- - Review.Render.Intraline: crates/nits-review-core/src/render/intraline.rs, the changed columns.
-- - Review.Render.Rows: `build_rows` of crates/nits-review-core/src/render/mod.rs. Layout has its
--   first loops (groups, windows, blocks), Emit the rows; Shows says what rows show of two files.
-- - Review.Render.File: `render_file`, `render_blob` and `gaps_of` of the same file, over Rows,
--   Intraline, Lines and Chunks.
-- - Client.Delivery: `ViewEncoder` of crates/nits-client-core/src/delivery.rs, which cuts the patches
--   of Client.View into messages of a host. The lengths and texts of serde_json are parameters.
-- - Mcp.Checkpoint: crates/nits-mcp/src/checkpoint.rs, the session that a replaced worker hands on.
-- - Review.Render.Chunks: `Rendered` of crates/nits-review-core/src/render/mod.rs, the rows in chunks.
-- - Daemon.Codec: crates/nitsd/src/codec.rs, the frames between a client and the daemon.
-- - Daemon.Admission: crates/nitsd/src/admission.rs, the gate that an upgrade closes.
-- - Protocol.Author, Protocol.Changes: authors, tree entries, changes and targets of the same domain.rs.
-- - Store.Events: crates/nits-protocol/src/events.rs, and the records that events carry.
-- - Store.Views: crates/nits-review-core/src/store/views.rs, with `apply` in Store.Views.Apply. A table
--   is an association list and an id is its key.
-- - Store.Log: crates/nits-review-core/src/store/mod.rs and tables.rs, the log and its views. A
--   transaction is a function from the store to a result, so that an error commits nothing.
-- - Store.Index: the table `anchors_by_blob`, which that crate's `comments_on_blob` reads.
-- - Store.Consistent: what the tables promise each other, and that every event keeps it.
-- - Store.Core, Store.Comments: crates/nits-review-core/src/core.rs and comments.rs, the operations of
--   `Core` that append to the log of Store.Log. Comments.Rules is their abstract view: the commands,
--   the step that each takes in the state machine of a thread, and who may cause which event.
--   Comments.Commands runs them; Machine and Runs hold what is shown of runs. Commands are the seven
--   operations of clients; reanchoring is not one of them and is in Store.Reanchoring.
-- - Store.Reanchoring: `reanchor_review` and `path_fates` of comments.rs, which call Review.Reanchor for
--   each comment and append what has moved. Moves is the effect of one event, Sound that of a whole
--   reanchoring; Requests runs commands and reanchorings in any order, and Kept is what they leave
--   of a comment.
-- - Prelude: lists, maps, signed integers and tests on the native numbers. Tests: runs on concrete
--   inputs.
--
-- Integers: `u32` and `u64` are natural numbers, with `% 2 ^ w` where the source adds; an `i64`
-- offset is an integer, as sums of differences of `u32` stay far inside its range. Byte counts of
-- in-memory objects (`usize`) are not bounded.
--
-- Loops are structural recursion over the list that they go through. Two readers recur on fuel:
-- `collect` in Review.Replay.Follow, a client that follows cursors, needs one round for each row and
-- one more, since each page but an empty one takes at least one row; `read_all` in
-- Daemon.Codec.Streams needs one round for each frame and one more for the end.
--
-- Parameters, as code of other packages: the diff of imara_diff, the hasher, UTF-8 decoding and the
-- classes and lengths of characters, JSON serialisation, the answers of git and the parts of a
-- ULID. The highlighter of a render is any function.
-- Not modelled: git and the file system, the format of the database, the network and its tasks, syntax
-- highlighting, the command line and the user interfaces.
pub mod Prelude
pub mod Protocol
pub mod Review
pub mod Client
pub mod Mcp
pub mod Daemon
pub mod Store
mod Tests
