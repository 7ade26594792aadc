-- ===== src/Store/Consistent/Events.antt =====
-- store/views.rs: applying an event keeps the views consistent, provided that a new comment is new.
use nits.Prelude.{
  ℕ, ◌≡◌, refl, none, some, inl, inr, Result, ok, ◌>>=◌, nat_eq, pair_eq, Option-cases,
}
use nits.Prelude.Maps.{get}
use nits.Store.Events.{
  workspace_updated, review_updated, Comment, Event, EventBody, Workspace, workspace_created,
  workspace_updated, repo_attached, repo_detached, review_created, review_updated,
  review_target_updated, review_deleted, review_targets_resolved, comment_created, comment_edited,
  comment_deleted, comment_reanchored, thread_deferred, thread_resolved, thread_unresolved,
  file_viewed, file_unviewed, review_requested, review_checked, suggestion_applied,
}
use nits.Store.Views.{
  load_comment, unindex_anchor, save_workspace, load_workspace, Tables, StoreError, ReviewRecord,
  load_review,
}
use nits.Store.Views.Apply.{
  checkpoint_from_event, request_from_event, apply_suggestion_event, apply_body,
}
use nits.Store.Consistent.{IsConsistent}
use nits.Store.Consistent.Writes.{
  Kept, save-IsConsistent, retarget-Kept, set_resolution-Kept, save_comment-IsConsistent,
  unindex_anchor-SameParts, move_comment-IsConsistent, create_comment-Kept,
}

abbrev pub IsFresh : Tables → EventBody → Type 0
IsFresh t b = elim b [ comment_created c ↦ get (c.review_id, c.id) t.comments ≡ none | _ ↦ Unit ]

module _ (t : Tables) (e : Event) (h : IsConsistent t) where
  workspace_Kept :
      (w : ℕ) (f : Workspace → Tables)
      → ((ws : Workspace) → IsConsistent (f ws))
      → Kept (load_workspace t e.seq w >>= λ ws. ok (f ws))
  unfolding load_workspace
  workspace_Kept w f kept = elim (Option-cases (get w t.workspaces)) [
    | inl q ↦ rw q tt
    | inr (ws, q) ↦ rw q (kept ws)
  ]

  review_Kept :
      (r : ℕ) (f : ReviewRecord → Result Tables StoreError)
      → ((rec : ReviewRecord) → Kept (f rec))
      → Kept (load_review t e.seq r >>= f)
  unfolding load_review
  review_Kept r f kept = elim (Option-cases (get r t.reviews)) [
    | inl q ↦ rw q tt
    | inr (rec, q) ↦ rw q (kept rec)
  ]

  comment_Kept :
      (r c : ℕ) (f : Comment → Tables)
      → ((x : Comment) → get (r, c) t.comments ≡ some x → IsConsistent (f x))
      → Kept (load_comment t e.seq r c >>= λ x. ok (f x))
  unfolding load_comment
  comment_Kept r c f kept = elim (Option-cases (get (r, c) t.comments)) [
    | inl q ↦ rw q tt
    | inr (x, q) ↦ rw q (kept x q)
  ]

  -- Applying an event, if it applies, keeps the views consistent.
  pub apply_body-Kept : (b : EventBody) → IsFresh t b → Kept (apply_body t e b)
  unfolding apply_body save_workspace apply_suggestion_event
  apply_body-Kept (workspace_created w) f = h
  apply_body-Kept (workspace_updated w name) f = workspace_Kept w _ (λ ws. h)
  apply_body-Kept (repo_attached w repo) f = workspace_Kept w _ (λ ws. h)
  apply_body-Kept (repo_detached w repo) f = workspace_Kept w _ (λ ws. h)
  apply_body-Kept (review_created r) f = save-IsConsistent t _ h
  apply_body-Kept (review_updated r title status) f =
      review_Kept r _ (λ rec. save-IsConsistent t _ h)
  apply_body-Kept (review_target_updated r target) f =
      review_Kept r _ (λ rec. retarget-Kept t e.seq target rec h)
  apply_body-Kept (review_deleted r) f = review_Kept r _ (λ rec. save-IsConsistent t _ h)
  apply_body-Kept (review_targets_resolved r targets) f =
      review_Kept r _ (λ rec. save-IsConsistent t _ h)
  apply_body-Kept (comment_created c) f = create_comment-Kept t e.seq c f h
  apply_body-Kept (comment_edited r id body) f =
      comment_Kept r id _
        (λ x q. save_comment-IsConsistent t t r id x _ q (refl, refl, refl) (refl, refl, refl) h)
  apply_body-Kept (comment_deleted r id) f = comment_Kept r id _ (λ x q.
      save_comment-IsConsistent t (unindex_anchor x t) r id x _ q (refl, refl, refl)
        (unindex_anchor-SameParts x t) h)
  apply_body-Kept (comment_reanchored r id anchor state) f =
      comment_Kept r id _ (λ x q. move_comment-IsConsistent t r id anchor state x q h)
  apply_body-Kept (thread_deferred r th reason url) f = set_resolution-Kept t e.seq r th _ h
  apply_body-Kept (thread_resolved r th) f = set_resolution-Kept t e.seq r th _ h
  apply_body-Kept (thread_unresolved r th) f = set_resolution-Kept t e.seq r th _ h
  apply_body-Kept (file_viewed r repo path viewer content) f = review_Kept r _ (λ rec. h)
  apply_body-Kept (file_unviewed r repo path viewer) f = h
  apply_body-Kept (review_requested r agent text targets comparison) f =
      elim (Option-cases (request_from_event e)) [
        | inl q ↦ rw (q, apply_body) h
        | inr (x, q) ↦ rw (q, apply_body) h
      ]
  apply_body-Kept (review_checked r reviewer targets round) f =
      elim (Option-cases (checkpoint_from_event e)) [
        | inl q ↦ rw (q, apply_body) h
        | inr (x, q) ↦ rw (q, apply_body) h
      ]
  apply_body-Kept (suggestion_applied r c repo path blob) f =
      elim (Option-cases (get (r, c) t.suggestions)) [ inl q ↦ rw q tt | inr (x, q) ↦ rw q h ]
