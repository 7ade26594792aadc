-- ===== src/Store/Comments/Anchors.antt =====
-- comments.rs: `validate_anchor` and `add_comment`, which git can refuse but the views cannot.
use mathlib.Core.Path.{subst}
use nits.Prelude.{
  ◌⊎◌, ℕ, ◌≡◌, refl, sym, ◌∙◌, Option, some, List, Result, ok, err, ◌>>=◌, arith, inl, inr, Bool,
  true, false, nat_eq, pair_eq, Option-cases, Bool-cases, Result-cases, not, ◌&&◌, leb, length,
  if◌then◌else◌,
}
use nits.Prelude.Maps.{get}
use nits.Protocol.Domain.{Text, RepoId, BlobOid, Side, Anchor, review, file, lines}
use nits.Protocol.Lines.{LineRange, index}
use nits.Review.Render.Lines.{lines_of}
use nits.Store.Events.{CommentKind, CommentContext, comment_created}
use nits.Store.Views.{ReviewLifecycle, ReviewRecord, review_live, review_deleted_at}
use nits.Store.Log.{find_workspace, Store, find_comment, find_review}
use nits.Store.Core
use nits.Store.Core.{
  Git, Ctx, CoreError, not_found, review_entity, from_git, review_repo, workspace_repo, workspace,
  only_live, targets_repo, holds_repo,
}
use nits.Store.Consistent.{IsConsistent}
use nits.Store.Comments.{
  Ulid, IsUlid, thread_id_of, add_comment, validate_anchor, review_blob, stamp, is_informational,
  is_review_anchor, is_browse, is_review_or_base,
}
use nits.Store.Comments.Sound.{Sound, Clean, append-Sound}
use nits.Store.Comments.Rules.{adding}
use nits.Store.Comments.Operations.{created_Applies}

pub >>=-Clean :
    {A B G : Type 0} (m : Result {0, 0} A (CoreError G)) (f : A → Result {0, 0} B (CoreError G))
    → Clean m
    → ((a : A) → Clean (f a))
    → Clean (m >>= f)
>>=-Clean (ok a) f c k = k a
>>=-Clean (err e) f c k = c

if-Clean :
    {A G : Type 0} (b : Bool) (m n : Result {0, 0} A (CoreError G))
    → Clean m
    → Clean n
    → Clean (if b then m else n)
if-Clean true m n c d = c
if-Clean false m n c d = d

pub from_git-Clean : {A G : Type 0} (m : Result {0, 0} A G) → Clean (from_git m)
from_git-Clean (ok a) = tt
from_git-Clean (err e) = tt

live_cases : (l : ReviewLifecycle) → (l ≡ review_live) ⊎ ((n : ℕ) × (l ≡ review_deleted_at n))
live_cases review_live = inl refl
live_cases (review_deleted_at n) = inr (n, refl)

module _ (G : Type 0) where
  pub review_cases :
      (r : ℕ) (s : Store)
      → (Core.review {G = G} r s ≡ err (not_found review_entity r))
        ⊎ ((x : ReviewRecord) × (Core.review {G = G} r s ≡ ok x) × (get r s.views.reviews ≡ some x))
  unfolding Core.review find_review only_live
  review_cases r s = elim (Option-cases (get r s.views.reviews)) [
    | inl q ↦ inl (rw q refl)
    | inr (x, q) ↦ elim (live_cases x.lifecycle) [
      | inl b ↦ inr (x, rw (q, b) refl, q)
      | inr (n, b) ↦ inl (rw (q, b) refl)
    ]
  ]

  review-Clean : (r : ℕ) (s : Store) → Clean (Core.review {G = G} r s)
  review-Clean r s = elim (review_cases r s) [ inl q ↦ rw q tt | inr (x, q, g) ↦ rw q tt ]

  workspace-Clean : (w : ℕ) (s : Store) → Clean (workspace {G = G} w s)
  unfolding workspace find_workspace
  workspace-Clean w s = elim (Option-cases (get w s.views.workspaces)) [
    | inl q ↦ rw q tt
    | inr (x, q) ↦ rw q tt
  ]

  pub review_repo-Clean : (git : Git G) (r repo : ℕ) (s : Store) → Clean (review_repo git r repo s)
  unfolding review_repo workspace_repo
  review_repo-Clean git r repo s = >>=-Clean (Core.review r s) _ (review-Clean r s) (λ rec.
      if-Clean (not (targets_repo repo rec.review.targets)) _ _ tt (
        >>=-Clean (workspace rec.review.workspace_id s) _ (workspace-Clean _ s) (λ ws.
          if-Clean (not (holds_repo repo ws.repos)) _ _ tt (from_git-Clean (git.lookup repo)))))

  review_blob-Clean :
      (git : Git G) (r repo blob : ℕ) (s : Store) → Clean (review_blob git r repo blob s)
  unfolding review_blob
  review_blob-Clean git r repo blob s =
      >>=-Clean (review_repo git r repo s) _ (review_repo-Clean git r repo s)
        (λ handle. from_git-Clean (git.blob handle blob))

  stamp-Clean :
      (hash : List Text → ℕ) (repo : RepoId) (path : Text) (side : Side) (blob : BlobOid)
      (range : LineRange) (text : List Text)
      → Clean {G = G} (stamp hash repo path side blob range text)
  unfolding stamp
  stamp-Clean hash repo path side blob range text =
      if-Clean (leb (length text) (index range.end)) _ _ tt tt

module _ (G : Type 0) (git : Git G) (hash : List Text → ℕ) (from_utf8_lossy : List ℕ → Text)
    (is_whitespace : ℕ → Bool) where
  pub validate_anchor-Clean :
      (r : ℕ) (a : Anchor) (s : Store)
      → Clean (validate_anchor git hash from_utf8_lossy is_whitespace r a s)
  unfolding validate_anchor
  validate_anchor-Clean r review s = >>=-Clean (Core.review r s) _ (review-Clean G r s) (λ rec. tt)
  validate_anchor-Clean r (file repo path blob) s =
      >>=-Clean (Core.review r s) _ (review-Clean G r s) (λ rec.
        if-Clean (not (targets_repo repo rec.review.targets)) _ _ tt (
          >>=-Clean (review_blob git r repo blob s) _ (review_blob-Clean G git r repo blob s)
            (λ _. tt)))
  validate_anchor-Clean r (lines repo path side blob range h) s =
      >>=-Clean (Core.review r s) _ (review-Clean G r s) (λ rec.
        if-Clean (not (targets_repo repo rec.review.targets)) _ _ tt (
          >>=-Clean (review_blob git r repo blob s) _ (review_blob-Clean G git r repo blob s)
            (λ bytes.
              stamp-Clean G hash repo path side blob range
                (lines_of from_utf8_lossy is_whitespace bytes))))

  -- An anchor is only accepted in a live review.
  pub validate_anchor_unknown :
      (r : ℕ) (a : Anchor) (s : Store)
      → Core.review {G = G} r s ≡ err (not_found review_entity r)
      → validate_anchor git hash from_utf8_lossy is_whitespace r a s
        ≡ err (not_found review_entity r)
  unfolding validate_anchor
  validate_anchor_unknown r review s q = rw q refl
  validate_anchor_unknown r (file repo path blob) s q = rw q refl
  validate_anchor_unknown r (lines repo path side blob range h) s q = rw q refl

  pub add_comment-Sound :
      (current_schema : ℕ) (ulid : Ulid) (ctx : Ctx) (r id : ℕ) (kind : CommentKind)
      (anchor : Anchor) (body : Text) (context : Option CommentContext) (s : Store)
      → IsUlid ulid
      → IsConsistent s.views
      → Sound ctx (adding r id kind anchor body context) s (
          add_comment current_schema git ulid hash from_utf8_lossy is_whitespace ctx r id kind
            anchor body context s)
  unfolding add_comment find_comment thread_id_of
  add_comment-Sound current_schema ulid ctx r id kind anchor body context s u h =
      elim (Option-cases (get (r, id) s.views.comments)) [
        | inr (x, q) ↦ rw q tt
        | inl fresh ↦ elim (Bool-cases (is_informational kind && not (is_review_anchor anchor))) [
          | inl a ↦ rw (fresh, a) tt
          | inr a ↦ elim (Bool-cases (is_browse context && is_review_or_base anchor)) [
            | inl b ↦ rw (fresh, a, b) tt
            | inr b ↦
                let placed = validate_anchor git hash from_utf8_lossy is_whitespace r anchor s in
                let clean = validate_anchor-Clean r anchor s in
                elim (Result-cases placed) [
                  | inr (e, q) ↦ rw (fresh, a, b, q) (subst Clean q clean)
                  | inl (x, q) ↦ elim (review_cases G r s) [
                    | inl w ↦
                        let clash : ok x ≡ err (not_found review_entity r) =
                          sym q ∙ validate_anchor_unknown r anchor s w in
                        absurd (ground arith)
                    | inr (rec, w, live) ↦
                        rw (fresh, a, b, q)
                          (append-Sound G current_schema ctx (adding r id kind anchor body context)
                            (comment_created _) s _ h fresh
                            (created_Applies G current_schema ctx r s h _ (rec, live) (inr (u id)))
                            (fresh, refl))
                  ]
                ]
          ]
        ]
      ]
