-- ===== src/Review/Reanchor.antt =====
-- crates/nits-review-core/src/anchor.rs: `reanchor`, the state that a comment's anchor moves to.
-- The closures `old_blob` and `new_blob` are functions from an object id to the bytes, if any.
pub mod Outcomes
pub mod Return
use nits.Prelude.{
  ℕ, Bool, true, false, not, ◌&&◌, Option, none, some, List, [], ◌∷◌, ◌==◌, if◌then◌else◌, same,
}
use nits.Protocol.Lines.{LineRange}
use nits.Protocol.Domain.{
  Text, RepoId, BlobOid, Side, Anchor, review, file, lines, CommentState, live, outdated, deleted,
  Text-discrete, Anchor-discrete,
}
use nits.Review.Anchor.{
  Hunk, context_hash, PathFate, present, gone, Reanchor, unchanged, moved, effective_anchor,
  map_range,
}
use nits.Review.Render.Lines.{lines_of}

-- "<review>", the path that stands for a `Review` anchor.
abbrev sentinel : Text
sentinel = 60 ∷ 114 ∷ 101 ∷ 118 ∷ 105 ∷ 101 ∷ 119 ∷ 62 ∷ []

unfoldable pub anchor_path : Anchor → Text
anchor_path (file _ p _) = p
anchor_path (lines _ p _ _ _ _) = p
anchor_path review = sentinel

abbrev pub is_live : CommentState → Bool
is_live live = true
is_live (outdated _) = false
is_live deleted = false

-- The closure `outdated` of `reanchor`.
abbrev pub outdate : Anchor → CommentState → Reanchor
outdate a s = moved a (outdated (effective_anchor a s))

-- Both arms for a path that is gone.
unfoldable pub lose_path : Anchor → CommentState → Reanchor
lose_path a (outdated good) = unchanged
lose_path a live = outdate a live
lose_path a deleted = outdate a deleted

-- `let (Some(old), Some(new)) = … else`
unfoldable pub both_blobs {ℓ} :
    {A : Type ℓ} → Option (List ℕ) → Option (List ℕ) → (List ℕ → List ℕ → A) → A → A
both_blobs (some old) (some new) f otherwise = f old new
both_blobs (some old) none f otherwise = otherwise
both_blobs none new f otherwise = otherwise

module _ (diff : List Text → List Text → List Hunk) (hash : List Text → ℕ)
    (from_utf8_lossy : List ℕ → Text) (is_whitespace : ℕ → Bool)
    (old_blob new_blob : BlobOid → Option (List ℕ)) (anchor : Anchor) (state : CommentState) where
  texts : List ℕ → List Text
  texts = lines_of from_utf8_lossy is_whitespace

  unfoldable pub file_arm : RepoId → PathFate → Reanchor
  file_arm repo gone = lose_path anchor state
  file_arm repo (present path blob) =
      let to = file repo path blob in
      if same Anchor-discrete to anchor && is_live state then unchanged else moved to live

  -- A changed blob whose old and new content are at hand.
  unfoldable pub follow :
      RepoId → Text → Side → BlobOid → LineRange → ℕ → List ℕ → List ℕ → Reanchor
  unfolding texts
  follow repo path side blob range h old new = elim (map_range diff (texts old) (texts new) range) [
    | none ↦ outdate anchor state
    | some mapped ↦
        if not (context_hash hash (texts new) mapped == h)
        then outdate anchor state
        else moved (lines repo path side blob mapped h) live
  ]

  unfoldable pub lines_arm : RepoId → Side → BlobOid → LineRange → ℕ → PathFate → Reanchor
  unfolding both_blobs
  lines_arm repo side blob_oid range h gone = lose_path anchor state
  lines_arm repo side blob_oid range h (present path blob) =
      if blob == blob_oid
      then (if is_live state && same Text-discrete path (anchor_path anchor)
          then unchanged
          else moved (lines repo path side blob range h) live)
      else both_blobs (old_blob blob_oid) (new_blob blob) (follow repo path side blob range h)
          (outdate anchor state)

  -- The match on the anchor that is tried, `base`.
  unfoldable pub reanchor_from : Anchor → PathFate → Reanchor
  unfolding file_arm lines_arm follow lose_path
  reanchor_from review fate = unchanged
  reanchor_from (file repo _ _) fate = file_arm repo fate
  reanchor_from (lines repo _ side blob_oid range h) fate =
      lines_arm repo side blob_oid range h fate

abbrev pub is_deleted : CommentState → Bool
is_deleted deleted = true
is_deleted live = false
is_deleted (outdated _) = false

module _ (diff : List Text → List Text → List Hunk) (hash : List Text → ℕ)
    (from_utf8_lossy : List ℕ → Text) (is_whitespace : ℕ → Bool)
    (old_blob new_blob : BlobOid → Option (List ℕ)) where
  unfoldable pub reanchor : Anchor → CommentState → PathFate → Reanchor
  unfolding reanchor_from effective_anchor
  reanchor anchor state fate =
      if is_deleted state
      then unchanged
      else reanchor_from diff hash from_utf8_lossy is_whitespace old_blob new_blob anchor state
          (effective_anchor anchor state) fate
