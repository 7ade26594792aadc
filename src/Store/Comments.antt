-- ===== src/Store/Comments.antt =====
-- crates/nits-review-core/src/comments.rs: the operations on comments and threads. `thread_id_of`
-- takes a ULID apart and puts it together again with the ulid library, whose three functions are
-- parameters, as are git, the hasher, UTF-8 decoding and the class of white space.
pub mod Rules
pub mod Changes
pub mod Effects
pub mod Sound
pub mod Operations
pub mod Anchors
pub mod Commands
pub mod Settles
pub mod Machine
pub mod Runs
use nits.Prelude.{
  ◌≡◌, ℕ, Bool, true, false, not, ◌&&◌, ◌==◌, leb, Option, none, some, List, [], ◌∷◌, length,
  Result, ok, err, ◌>>=◌, if◌then◌else◌, same,
}
use nits.Protocol.Lines.{LineRange, index}
use nits.Protocol.Domain.{
  Text, RepoId, BlobOid, Side, base, head, Anchor, review, file, lines, CommentState, live,
}
use nits.Protocol.Author.{Author, Author-discrete}
use nits.Review.Anchor.{context_hash}
use nits.Review.Render.Lines.{lines_of}
use nits.Store.Events.{
  Comment, CommentKind, note, informational, request, suggestion, CommentContext, diff_context,
  browse_context, Thread, ThreadResolution, informational_thread, open_thread, deferred,
  resolved_by, comment_created, comment_edited, comment_deleted, thread_deferred, thread_resolved,
  thread_unresolved,
}
use nits.Store.Log.{Store, find_comment}
use nits.Store.Core.{
  Ctx, Git, CoreError, invalid, forbidden, comment_exists, informational_needs_review,
  browse_needs_head, repo_not_in_review, range_exceeds, informational_fixed, reopen_first,
  already_resolved, not_resolved, only_author_edits, only_author_deletes, append, comment, thread,
  targets_repo, review_repo, from_git,
}
use nits.Store.Core

-- The library of ULIDs: the time of an id, its random bits, and the id made of both.
pub record Ulid : Type 0 where
  pub timestamp_ms : ℕ → ℕ
  pub random : ℕ → ℕ
  pub from_parts : ℕ → ℕ → ℕ

-- The parts of an id make up the id.
abbrev pub IsUlid : Ulid → Type 0
IsUlid u = (n : ℕ) → u.from_parts (u.timestamp_ms n) (u.random n) ≡ n

unfoldable pub thread_id_of : Ulid → ℕ → ℕ
thread_id_of u id = u.from_parts (u.timestamp_ms id) (u.random id)

-- The tests of `add_comment` on kind, anchor and context.
abbrev pub is_informational : CommentKind → Bool
is_informational k = elim k [ informational ↦ true | _ ↦ false ]

abbrev pub is_review_anchor : Anchor → Bool
is_review_anchor a = elim a [ review ↦ true | _ ↦ false ]

abbrev pub is_base : Side → Bool
is_base s = elim s [ base ↦ true | head ↦ false ]

abbrev pub is_review_or_base : Anchor → Bool
is_review_or_base a = elim a [ review ↦ true | file _ _ _ ↦ false | lines _ _ s _ _ _ ↦ is_base s ]

abbrev pub is_browse : Option CommentContext → Bool
is_browse none = false
is_browse (some (browse_context _)) = true
is_browse (some (diff_context _)) = false

abbrev pub exists : Option Comment → Bool
exists none = false
exists (some _) = true

module _ {G : Type 0} where
  -- The tests on the resolution of the thread, one for each operation.
  unfoldable pub may_defer : ThreadResolution → Result {0, 0} Unit (CoreError G)
  may_defer open_thread = ok tt
  may_defer informational_thread = err (invalid informational_fixed)
  may_defer (deferred _ _ _ _) = err (invalid reopen_first)
  may_defer (resolved_by _ _) = err (invalid reopen_first)

  unfoldable pub may_resolve : ℕ → ThreadResolution → Result {0, 0} Unit (CoreError G)
  may_resolve h informational_thread = err (invalid informational_fixed)
  may_resolve h (resolved_by _ _) = err (invalid (already_resolved h))
  may_resolve h open_thread = ok tt
  may_resolve h (deferred _ _ _ _) = ok tt

  unfoldable pub may_unresolve : ℕ → ThreadResolution → Result {0, 0} Unit (CoreError G)
  may_unresolve h informational_thread = err (invalid informational_fixed)
  may_unresolve h open_thread = err (invalid (not_resolved h))
  may_unresolve h (deferred _ _ _ _) = ok tt
  may_unresolve h (resolved_by _ _) = ok tt

module _ {G : Type 0} (git : Git G) where
  -- `review_repo(review, repo_id)?.blob(blob_oid)?`
  unfoldable pub review_blob : ℕ → RepoId → BlobOid → Store → Result (List ℕ) (CoreError G)
  review_blob r repo blob s = review_repo git r repo s >>= λ handle. from_git (git.blob handle blob)

module _ {G : Type 0} (hash : List Text → ℕ) where
  -- The hash of the lines around the range, once they are read.
  unfoldable pub stamp :
      RepoId → Text → Side → BlobOid → LineRange → List Text → Result Anchor (CoreError G)
  stamp repo path side blob range text =
      if leb (length text) (index range.end)
      then err (invalid (range_exceeds range.start.get range.end.get (length text)))
      else ok (lines repo path side blob range (context_hash hash text range))

module _ {G : Type 0} (git : Git G) (hash : List Text → ℕ) (from_utf8_lossy : List ℕ → Text)
    (is_whitespace : ℕ → Bool) where
  unfoldable pub validate_anchor : ℕ → Anchor → Store → Result Anchor (CoreError G)
  unfolding review_blob stamp
  validate_anchor r review s = Core.review r s >>= λ _. ok review
  validate_anchor r (file repo path blob) s = Core.review r s >>= λ rec.
      if not (targets_repo repo rec.review.targets)
      then err (invalid (repo_not_in_review repo r))
      else review_blob git r repo blob s >>= λ _. ok (file repo path blob)
  validate_anchor r (lines repo path side blob range _) s = Core.review r s >>= λ rec.
      if not (targets_repo repo rec.review.targets)
      then err (invalid (repo_not_in_review repo r))
      else review_blob git r repo blob s >>= λ bytes.
          stamp hash repo path side blob range (lines_of from_utf8_lossy is_whitespace bytes)

module _ {G : Type 0} (current_schema : ℕ) (git : Git G) (ulid : Ulid) (hash : List Text → ℕ)
    (from_utf8_lossy : List ℕ → Text) (is_whitespace : ℕ → Bool) where
  unfoldable pub add_comment :
      Ctx
      → ℕ
      → ℕ
      → CommentKind
      → Anchor
      → Text
      → Option CommentContext
      → Store
      → Result (Comment × Store) (CoreError G)
  unfolding validate_anchor thread_id_of
  add_comment ctx r id kind anchor body context s =
      if exists (find_comment r id s)
      then err (invalid (comment_exists id))
      else if is_informational kind && not (is_review_anchor anchor)
      then err (invalid informational_needs_review)
      else if is_browse context && is_review_or_base anchor
      then err (invalid browse_needs_head)
      else validate_anchor git hash from_utf8_lossy is_whitespace r anchor s >>= λ placed.
          let new : Comment = record {
            id = id;
            review_id = r;
            thread_id = thread_id_of ulid id;
            author = ctx.author;
            kind = kind;
            anchor = placed;
            body = body;
            created = ctx.now;
            edited = none;
            state = live;
            context = context;
          } in
          append current_schema ctx (comment_created new) s >>= λ r'. ok (new, r'.1)

module _ {G : Type 0} (current_schema : ℕ) where
  unfoldable pub reply :
      Ctx → ℕ → ℕ → ℕ → CommentKind → Text → Store → Result (Comment × Store) (CoreError G)
  reply ctx r h id kind body s =
      if exists (find_comment r id s)
      then err (invalid (comment_exists id))
      else thread r h s >>= λ th. comment r th.root s >>= λ root.
          let new : Comment = record {
            id = id;
            review_id = r;
            thread_id = h;
            author = ctx.author;
            kind = kind;
            anchor = root.anchor;
            body = body;
            created = ctx.now;
            edited = none;
            state = root.state;
            context = root.context;
          } in
          append current_schema ctx (comment_created new) s >>= λ r'. ok (new, r'.1)

  unfoldable pub edit_comment : Ctx → ℕ → ℕ → Text → Store → Result (Unit {0} × Store) (CoreError G)
  edit_comment ctx r id body s = comment r id s >>= λ c.
      if not (same Author-discrete c.author ctx.author)
      then err (forbidden only_author_edits)
      else append current_schema ctx (comment_edited r id body) s >>= λ r'. ok (tt, r'.1)

  unfoldable pub delete_comment : Ctx → ℕ → ℕ → Store → Result (Unit {0} × Store) (CoreError G)
  delete_comment ctx r id s = comment r id s >>= λ c.
      if not (same Author-discrete c.author ctx.author)
      then err (forbidden only_author_deletes)
      else append current_schema ctx (comment_deleted r id) s >>= λ r'. ok (tt, r'.1)

  unfoldable pub defer_thread :
      Ctx → ℕ → ℕ → Text → Option Text → Store → Result (Unit {0} × Store) (CoreError G)
  unfolding may_defer
  defer_thread ctx r h reason url s = thread r h s >>= λ th. may_defer th.resolution >>= λ _.
      append current_schema ctx (thread_deferred r h reason url) s >>= λ r'. ok (tt, r'.1)

  unfoldable pub resolve_thread : Ctx → ℕ → ℕ → Store → Result (Unit {0} × Store) (CoreError G)
  unfolding may_resolve
  resolve_thread ctx r h s = thread r h s >>= λ th. may_resolve h th.resolution >>= λ _.
      append current_schema ctx (thread_resolved r h) s >>= λ r'. ok (tt, r'.1)

  unfoldable pub unresolve_thread : Ctx → ℕ → ℕ → Store → Result (Unit {0} × Store) (CoreError G)
  unfolding may_unresolve
  unresolve_thread ctx r h s = thread r h s >>= λ th. may_unresolve h th.resolution >>= λ _.
      append current_schema ctx (thread_unresolved r h) s >>= λ r'. ok (tt, r'.1)
