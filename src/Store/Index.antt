-- ===== src/Store/Index.antt =====
-- store/views.rs: what the table `anchors_by_blob` says of the comments. Its key holds no review, so
-- that it can only be right where no two reviews share the id of a comment.
pub mod Writes
pub mod Events
pub mod Listing
use nits.Prelude.{ℕ, ◌≡◌, Bool, false, Option, none, some, List, nat_eq, pair_eq}
use nits.Prelude.Maps.{get, insert, remove, IsMap}
use nits.Store.Events.{Comment, EventBody, comment_created}
use nits.Store.Views.{Tables, anchor_key, is_deleted}
use nits.Store.Consistent.{Comments}

abbrev pub Anchors : Type 0
Anchors = List (((ℕ × ℕ) × ℕ) × ℕ)

-- The comment is there, not deleted, and on that blob.
abbrev pub OnBlob : Comments → ℕ × ℕ → ℕ → ℕ → Type 0
OnBlob cs k r c =
    (x : Comment) × (get (r, c) cs ≡ some x)
    × (is_deleted x.state ≡ false)
    × (anchor_key x.anchor ≡ some k)

pub record Indexed (cs : Comments) (index : Anchors) : Type 0 where
  pub is_map : IsMap index
  -- An entry of the index is a comment on that blob, and every such comment has its entry.
  pub entries : (k : ℕ × ℕ) (r c : ℕ) → get (k, c) index ≡ some r → OnBlob cs k r c
  pub complete : (k : ℕ × ℕ) (r c : ℕ) → OnBlob cs k r c → get (k, c) index ≡ some r
  -- The id of a comment is of one review.
  pub one_review :
      (r q c : ℕ) (x y : Comment) → get (r, c) cs ≡ some x → get (q, c) cs ≡ some y → r ≡ q

abbrev pub IsIndexed : Tables → Type 0
IsIndexed t = Indexed t.comments t.anchors_by_blob

-- The two updates of the index.
abbrev pub with_anchor : ℕ → ℕ → Option (ℕ × ℕ) → Anchors → Anchors
with_anchor r c none m = m
with_anchor r c (some k) m = insert (k, c) r m

abbrev pub without_anchor : ℕ → Option (ℕ × ℕ) → Anchors → Anchors
without_anchor c none m = m
without_anchor c (some k) m = remove (k, c) m
