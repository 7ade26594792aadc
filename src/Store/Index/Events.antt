-- ===== src/Store/Index/Events.antt =====
-- store/views.rs: applying an event keeps the index of anchors right.
use mathlib.Core.Path.{subst}
use nits.Prelude.{
  ℕ, ◌≡◌, refl, sym, ap, ◌∙◌, none, some, inl, inr, Result, ok, err, ◌>>=◌, false, nat_eq, pair_eq,
  Option-cases, Bool-cases, ◌==◌,
}
use nits.Prelude.Maps.{get, insert}
use nits.Protocol.Domain.{Anchor, CommentState, deleted}
use nits.Store.Events.{
  Comment, Thread, ThreadResolution, Event, Workspace, from_created, EventBody, workspace_created,
  workspace_updated, repo_attached, repo_detached, review_created, review_updated,
  review_target_updated, review_deleted, review_targets_resolved, comment_created, comment_edited,
  comment_deleted, comment_reanchored, thread_deferred, thread_resolved, thread_unresolved,
  file_viewed, file_unviewed, review_requested, review_checked, suggestion_applied,
}
use nits.Store.Views.{
  Tables, StoreError, ReviewRecord, anchor_key, is_deleted, index_anchor, unindex_anchor,
  save_comment, save_review, put_comment, add_suggestion, create_comment, load_review,
  load_workspace, load_comment, load_thread, save_thread, save_workspace, thread_with,
  replace_target,
}
use nits.Store.Views.Apply.{
  apply_body, move_comment, set_resolution, retarget, apply_suggestion_event, request_from_event,
  checkpoint_from_event,
}
use nits.Store.Consistent.{IsConsistent}
use nits.Store.Consistent.Writes.{put_comment-writes, unindex_anchor-SameParts, pair_path}
use nits.Store.Index.{Indexed, IsIndexed, with_anchor, without_anchor}
use nits.Store.Index.Writes.{edit-Indexed, rewrite-Indexed, create-Indexed, indexed_key}

-- A new comment has an id of its own, and is not created deleted.
abbrev pub IsNew : Tables → EventBody → Type 0
IsNew t b = elim b [
  | comment_created c ↦ ((q : ℕ) → get (q, c.id) t.comments ≡ none) × (is_deleted c.state ≡ false)
  | _ ↦ Unit
]

abbrev pub StaysIndexed : Result Tables StoreError → Type 0
StaysIndexed (ok t) = IsIndexed t
StaysIndexed (err _) = Unit

index_anchor-with_anchor :
    (r : ℕ) (c : Comment) (t : Tables)
    → (index_anchor r c t).anchors_by_blob
      ≡ with_anchor r c.id (anchor_key c.anchor) t.anchors_by_blob
unfolding index_anchor
index_anchor-with_anchor r c t = elim (Option-cases (anchor_key c.anchor)) [
  | inl q ↦ rw (q, index_anchor) refl
  | inr (k, q) ↦ rw (q, index_anchor) refl
]

index_anchor-comments :
    (r : ℕ) (c : Comment) (t : Tables) → (index_anchor r c t).comments ≡ t.comments
unfolding index_anchor
index_anchor-comments r c t = elim (Option-cases (anchor_key c.anchor)) [
  | inl q ↦ rw (q, index_anchor) refl
  | inr (k, q) ↦ rw (q, index_anchor) refl
]

unindex_anchor-without_anchor :
    (c : Comment) (t : Tables)
    → (unindex_anchor c t).anchors_by_blob
      ≡ without_anchor c.id (anchor_key c.anchor) t.anchors_by_blob
unfolding unindex_anchor
unindex_anchor-without_anchor c t = elim (Option-cases (anchor_key c.anchor)) [
  | inl q ↦ rw (q, unindex_anchor) refl
  | inr (k, q) ↦ rw (q, unindex_anchor) refl
]

add_suggestion_anchors :
    (c : Comment) (t : Tables) → (add_suggestion c t).anchors_by_blob ≡ t.anchors_by_blob
unfolding add_suggestion
add_suggestion_anchors c t = elim (Option-cases (from_created c)) [
  | inl q ↦ rw (q, add_suggestion) refl
  | inr (s, q) ↦ rw (q, add_suggestion) refl
]

put_comment-with_anchor :
    (t : Tables) (c : Comment) (th : Thread)
    → (put_comment c th t).anchors_by_blob
      ≡ with_anchor c.review_id c.id (anchor_key c.anchor) t.anchors_by_blob
unfolding put_comment
put_comment-with_anchor t c th =
    let u = record t {
      threads = insert (c.review_id, c.thread_id) th t.threads;
      comments = insert (c.review_id, c.id) c t.comments;
    } in
    index_anchor-with_anchor c.review_id c (add_suggestion c u)
    ∙ ap (λ m. with_anchor c.review_id c.id (anchor_key c.anchor) m) (add_suggestion_anchors c u)

put_comment-IsIndexed :
    (t : Tables) (c : Comment) (th : Thread)
    → ((q : ℕ) → get (q, c.id) t.comments ≡ none)
    → is_deleted c.state ≡ false
    → IsIndexed t
    → IsIndexed (put_comment c th t)
put_comment-IsIndexed t c th fresh live h =
    let (_, b, _) = put_comment-writes t c th in
    let key : indexed_key c ≡ anchor_key c.anchor = rw live refl in
    rw (b, put_comment-with_anchor t c th)
      (subst
        (λ k.
          Indexed (insert (c.review_id, c.id) c t.comments)
            (with_anchor c.review_id c.id k t.anchors_by_blob))
        key (create-Indexed c.review_id c.id c t.comments t.anchors_by_blob fresh h))

create_comment-StaysIndexed :
    (t : Tables) (seq : ℕ) (c : Comment)
    → ((q : ℕ) → get (q, c.id) t.comments ≡ none)
    → is_deleted c.state ≡ false
    → IsIndexed t
    → StaysIndexed (create_comment t seq c)
unfolding create_comment load_review thread_with
create_comment-StaysIndexed t seq c fresh live h = elim (Option-cases (get c.review_id t.reviews)) [
  | inl q ↦ rw q tt
  | inr (rec, q) ↦ elim (Option-cases (get (c.review_id, c.thread_id) t.threads)) [
    | inr (old, there) ↦ rw (q, there) (put_comment-IsIndexed t c _ fresh live h)
    | inl empty ↦ elim (Bool-cases (c.thread_id == c.id)) [
      | inl b ↦ rw (q, empty, b) (put_comment-IsIndexed t c _ fresh live h)
      | inr b ↦ rw (q, empty, b) tt
    ]
  ]
]

module _ (t : Tables) (r id : ℕ) (x : Comment) (q : get (r, id) t.comments ≡ some x)
    (keys : (x.review_id ≡ r) × (x.id ≡ id)) (h : IsIndexed t) where
  edited-IsIndexed :
      (new : Comment)
      → (new.review_id ≡ x.review_id) × (new.id ≡ x.id)
      → new.anchor ≡ x.anchor
      → new.state ≡ x.state
      → IsIndexed (save_comment new t)
  unfolding save_comment
  edited-IsIndexed new (a, b) e s =
      subst (λ k. Indexed (insert k new t.comments) t.anchors_by_blob)
        (pair_path (sym (a ∙ keys.0)) (sym (b ∙ keys.1)))
        (edit-Indexed r id x new t.comments t.anchors_by_blob q e s h)

  -- The comment is written after its old entry is gone.
  rewritten :
      (new : Comment)
      → (new.review_id ≡ x.review_id) × (new.id ≡ x.id)
      → Indexed (save_comment new (unindex_anchor x t)).comments (
          with_anchor r id
            (indexed_key new)
            (save_comment new (unindex_anchor x t)).anchors_by_blob)
  unfolding save_comment
  rewritten new (a, b) =
      let (_, m, _) = unindex_anchor-SameParts x t in
      let step = rewrite-Indexed r id x new t.comments t.anchors_by_blob q h in
      rw (m, unindex_anchor-without_anchor x t)
        (subst
          (λ k. Indexed (insert k new t.comments) (
            with_anchor r id (indexed_key new)
              (without_anchor x.id (anchor_key x.anchor) t.anchors_by_blob)))
          (pair_path (sym (a ∙ keys.0)) (sym (b ∙ keys.1)))
          (subst
            (λ k. Indexed (insert (r, id) new t.comments) (
              with_anchor r id (indexed_key new)
                (without_anchor k (anchor_key x.anchor) t.anchors_by_blob)))
            (sym keys.1) step))

  moved-IsIndexed :
      (anchor : Anchor) (state : CommentState) → IsIndexed (move_comment r anchor state x t)
  unfolding move_comment
  moved-IsIndexed anchor state =
      let new = record x { anchor = anchor; state = state } in
      let u = save_comment new (unindex_anchor x t) in
      let step = rewritten new (refl, refl) in
      elim (Bool-cases (is_deleted state)) [
        | inl b ↦
            let key : indexed_key new ≡ none = rw b refl in
            rw b (subst (λ k. Indexed u.comments (with_anchor r id k u.anchors_by_blob)) key step)
        | inr b ↦
            let key : indexed_key new ≡ anchor_key anchor = rw b refl in
            rw (b, index_anchor-comments r new u, index_anchor-with_anchor r new u)
              (subst
                (λ k. Indexed u.comments (with_anchor r k (anchor_key anchor) u.anchors_by_blob))
                (sym keys.1)
                (subst (λ k. Indexed u.comments (with_anchor r id k u.anchors_by_blob)) key step))
      ]

module _ (t : Tables) (e : Event) (c : IsConsistent t) (h : IsIndexed t) where
  workspace_Stays :
      (w : ℕ) (f : Workspace → Tables)
      → ((ws : Workspace) → IsIndexed (f ws))
      → StaysIndexed (load_workspace t e.seq w >>= λ ws. ok (f ws))
  unfolding load_workspace
  workspace_Stays w f kept = elim (Option-cases (get w t.workspaces)) [
    | inl q ↦ rw q tt
    | inr (ws, q) ↦ rw q (kept ws)
  ]

  review_Stays :
      (r : ℕ) (f : ReviewRecord → Result Tables StoreError)
      → ((rec : ReviewRecord) → StaysIndexed (f rec))
      → StaysIndexed (load_review t e.seq r >>= f)
  unfolding load_review
  review_Stays r f kept = elim (Option-cases (get r t.reviews)) [
    | inl q ↦ rw q tt
    | inr (rec, q) ↦ rw q (kept rec)
  ]

  comment_Stays :
      (r id : ℕ) (f : Comment → Tables)
      → ((x : Comment) → get (r, id) t.comments ≡ some x → IsIndexed (f x))
      → StaysIndexed (load_comment t e.seq r id >>= λ x. ok (f x))
  unfolding load_comment
  comment_Stays r id f kept = elim (Option-cases (get (r, id) t.comments)) [
    | inl q ↦ rw q tt
    | inr (x, q) ↦ rw q (kept x q)
  ]

  resolution_Stays :
      (r th : ℕ) (s : ThreadResolution) → StaysIndexed (set_resolution t e.seq r th s)
  unfolding set_resolution load_thread save_thread
  resolution_Stays r th s = elim (Option-cases (get (r, th) t.threads)) [
    | inl q ↦ rw q tt
    | inr (x, q) ↦ rw q h
  ]

  retarget_Stays : (rec : ReviewRecord) (target : _) → StaysIndexed (retarget t e.seq target rec)
  unfolding retarget save_review
  retarget_Stays rec target = elim (Option-cases (replace_target target rec.review.targets)) [
    | inl q ↦ rw q tt
    | inr (x, q) ↦ rw q h
  ]

  -- The index of anchors is exact: where it has an entry for each comment that is not deleted, under
  -- the blob of its anchor, and no other entry, it is so after any event that applies. The views must
  -- be consistent, and a new comment must have an id that no review knows, and not be deleted.
  pub apply_body-StaysIndexed : (b : EventBody) → IsNew t b → StaysIndexed (apply_body t e b)
  unfolding apply_body save_workspace save_review apply_suggestion_event
  apply_body-StaysIndexed (workspace_created w) f = h
  apply_body-StaysIndexed (workspace_updated w name) f = workspace_Stays w _ (λ ws. h)
  apply_body-StaysIndexed (repo_attached w repo) f = workspace_Stays w _ (λ ws. h)
  apply_body-StaysIndexed (repo_detached w repo) f = workspace_Stays w _ (λ ws. h)
  apply_body-StaysIndexed (review_created r) f = h
  apply_body-StaysIndexed (review_updated r title status) f = review_Stays r _ (λ rec. h)
  apply_body-StaysIndexed (review_target_updated r target) f =
      review_Stays r _ (λ rec. retarget_Stays rec target)
  apply_body-StaysIndexed (review_deleted r) f = review_Stays r _ (λ rec. h)
  apply_body-StaysIndexed (review_targets_resolved r targets) f = review_Stays r _ (λ rec. h)
  apply_body-StaysIndexed (comment_created x) f = create_comment-StaysIndexed t e.seq x f.0 f.1 h
  apply_body-StaysIndexed (comment_edited r id body) f =
      comment_Stays r id _
        (λ x q. edited-IsIndexed t r id x q (c.comment_keys r id x q) h _ (refl, refl) refl refl)
  apply_body-StaysIndexed (comment_deleted r id) f = comment_Stays r id _ (λ x q.
      rewritten t r id x q (c.comment_keys r id x q) h (record x { state = deleted }) (refl, refl))
  apply_body-StaysIndexed (comment_reanchored r id anchor state) f =
      comment_Stays r id _
        (λ x q. moved-IsIndexed t r id x q (c.comment_keys r id x q) h anchor state)
  apply_body-StaysIndexed (thread_deferred r th reason url) f = resolution_Stays r th _
  apply_body-StaysIndexed (thread_resolved r th) f = resolution_Stays r th _
  apply_body-StaysIndexed (thread_unresolved r th) f = resolution_Stays r th _
  apply_body-StaysIndexed (file_viewed r repo path viewer content) f = review_Stays r _ (λ rec. h)
  apply_body-StaysIndexed (file_unviewed r repo path viewer) f = h
  apply_body-StaysIndexed (review_requested r agent text targets comparison) f =
      elim (Option-cases (request_from_event e)) [
        | inl q ↦ rw (q, apply_body) h
        | inr (x, q) ↦ rw (q, apply_body) h
      ]
  apply_body-StaysIndexed (review_checked r reviewer targets round) f =
      elim (Option-cases (checkpoint_from_event e)) [
        | inl q ↦ rw (q, apply_body) h
        | inr (x, q) ↦ rw (q, apply_body) h
      ]
  apply_body-StaysIndexed (suggestion_applied r id repo path blob) f =
      elim (Option-cases (get (r, id) t.suggestions)) [ inl q ↦ rw q tt | inr (x, q) ↦ rw q h ]
