-- ===== src/Store/Views/Apply.antt =====
-- store/views.rs: `apply`, one clause for each kind of event.
use nits.Prelude.{
  ℕ, not, Option, none, some, [], ◌∷◌, ◌++◌, Result, ok, ◌>>=◌, if◌then◌else◌, nat_eq, bytes_eq,
  pair_eq,
}
use nits.Prelude.Maps
use nits.Protocol.Domain.{Text, RepoId, BlobOid, Anchor, CommentState, deleted}
use nits.Protocol.Changes.{ReviewTarget}
use nits.Store.Events.{
  ReviewStatus, Comment, ThreadResolution, open_thread, deferred, resolved_by, ReviewRequest,
  ReviewCheckpoint, applied, Event, EventBody, workspace_created, workspace_updated, repo_attached,
  repo_detached, review_created, review_updated, review_target_updated, review_deleted,
  review_targets_resolved, comment_created, comment_edited, comment_deleted, comment_reanchored,
  thread_deferred, thread_resolved, thread_unresolved, file_viewed, file_unviewed, review_requested,
  review_checked, suggestion_applied,
}
use nits.Store.Views.{
  ReviewRecord, Tables, StoreError, ok_or, load_workspace, save_workspace, load_review, save_review,
  load_comment, save_comment, load_thread, save_thread, index_anchor, unindex_anchor, without_repo,
  replace_target, create_comment, is_deleted, review_live, review_deleted_at, unknown_suggestion,
  review_has_no_repo, inconsistent,
}

-- What `CommentReanchored` does with the comment that it loads.
unfoldable pub move_comment : ℕ → Anchor → CommentState → Comment → Tables → Tables
unfolding unindex_anchor save_comment index_anchor
move_comment r anchor state c t =
    let moved = record c { anchor = anchor; state = state } in
    let t' = save_comment moved (unindex_anchor c t) in
    if not (is_deleted state) then index_anchor r moved t' else t'

-- `th.resolution = …` on the thread of a review.
unfoldable pub set_resolution : Tables → ℕ → ℕ → ℕ → ThreadResolution → Result Tables StoreError
unfolding load_thread save_thread
set_resolution t seq r h s =
    load_thread t seq r h >>= λ th. ok (save_thread (record th { resolution = s }) t)

unfoldable pub request_from_event : Event → Option ReviewRequest
request_from_event e = elim e.body [
  | review_requested r agent text targets comparison ↦ some (record {
    id = e.seq;
    review_id = r;
    requester = e.author;
    recipient = agent;
    targets = targets;
    checkpoint_comparison = comparison;
    note_text = text;
    created = e.ts;
  })
  | _ ↦ none
]

unfoldable pub checkpoint_from_event : Event → Option ReviewCheckpoint
checkpoint_from_event e = elim e.body [
  | review_checked r reviewer targets round ↦ some (record {
    id = e.seq;
    review_id = r;
    reviewer = reviewer;
    author = e.author;
    created = e.ts;
    targets = targets;
    in_reply_to = round;
  })
  | _ ↦ none
]

unfoldable pub apply_suggestion_event :
    Tables → Event → ℕ → ℕ → RepoId → Text → BlobOid → Result Tables StoreError
apply_suggestion_event t e r c repo path blob =
    ok_or (inconsistent e.seq (unknown_suggestion c)) (Maps.get (r, c) t.suggestions) >>= λ s.
    ok (record t {
      suggestions =
          Maps.insert (r, c)
            (record s {
              outcome = applied (record {
                seq = e.seq;
                at = e.ts;
                author = e.author;
                repo_id = repo;
                path = path;
                result_blob = blob;
              });
            })
            t.suggestions;
    })

-- `ReviewUpdated` and `ReviewTargetUpdated` on the record of the review.
unfoldable pub retitle : Text → ReviewStatus → ReviewRecord → ReviewRecord
retitle title status rec = record rec {
  review = record rec.review { title = title; status = status };
}

unfoldable pub retarget : Tables → ℕ → ReviewTarget → ReviewRecord → Result Tables StoreError
unfolding replace_target save_review
retarget t seq target rec =
    ok_or (inconsistent seq (review_has_no_repo target.repo_id))
      (replace_target target rec.review.targets)
    >>= λ ts. ok (save_review (record rec { review = record rec.review { targets = ts } }) t)

-- The match on `event.body`.
unfoldable pub apply_body : Tables → Event → EventBody → Result Tables StoreError
unfolding load_workspace save_workspace without_repo load_review save_review retitle retarget
    create_comment load_comment save_comment unindex_anchor move_comment set_resolution
    request_from_event checkpoint_from_event apply_suggestion_event
apply_body t e (workspace_created w) = ok (save_workspace w w.id t)
apply_body t e (workspace_updated w name) =
    load_workspace t e.seq w >>= λ ws. ok (save_workspace (record ws { name = name }) w t)
apply_body t e (repo_attached w repo) = load_workspace t e.seq w >>= λ ws.
    ok (save_workspace (record ws { repos = without_repo repo.id ws.repos ++ repo ∷ [] }) w t)
apply_body t e (repo_detached w repo) = load_workspace t e.seq w >>= λ ws.
    ok (save_workspace (record ws { repos = without_repo repo ws.repos }) w t)
apply_body t e (review_created r) =
    ok (save_review (record { review = r; resolved = none; lifecycle = review_live }) t)
apply_body t e (review_updated r title status) =
    load_review t e.seq r >>= λ rec. ok (save_review (retitle title status rec) t)
apply_body t e (review_target_updated r target) =
    load_review t e.seq r >>= λ rec. retarget t e.seq target rec
apply_body t e (review_deleted r) = load_review t e.seq r >>= λ rec.
    ok (save_review (record rec { lifecycle = review_deleted_at e.seq }) t)
apply_body t e (review_targets_resolved r targets) =
    load_review t e.seq r >>= λ rec. ok (save_review (record rec { resolved = some targets }) t)
apply_body t e (comment_created c) = create_comment t e.seq c
apply_body t e (comment_edited r id body) = load_comment t e.seq r id >>= λ c.
    ok (save_comment (record c { body = body; edited = some e.ts }) t)
apply_body t e (comment_deleted r id) = load_comment t e.seq r id >>= λ c.
    ok (save_comment (record c { state = deleted }) (unindex_anchor c t))
apply_body t e (comment_reanchored r id anchor state) =
    load_comment t e.seq r id >>= λ c. ok (move_comment r anchor state c t)
apply_body t e (thread_deferred r h reason url) =
    set_resolution t e.seq r h (deferred reason url e.author e.ts)
apply_body t e (thread_resolved r h) = set_resolution t e.seq r h (resolved_by e.author e.ts)
apply_body t e (thread_unresolved r h) = set_resolution t e.seq r h open_thread
apply_body t e (file_viewed r repo path viewer content) = load_review t e.seq r >>= λ _.
    ok (record t {
      viewed =
          Maps.insert ((r, repo), path)
            (record {
              review_id = r;
              repo_id = repo;
              path = path;
              viewer = viewer;
              content = content;
            })
            t.viewed;
    })
apply_body t e (file_unviewed r repo path viewer) =
    ok (record t { viewed = Maps.remove ((r, repo), path) t.viewed })
apply_body t e (review_requested r agent text targets comparison) = elim (request_from_event e) [
  | none ↦ ok t
  | some q ↦ ok (record t { requests = Maps.insert (q.review_id, q.id) q t.requests })
]
apply_body t e (review_checked r reviewer targets round) = elim (checkpoint_from_event e) [
  | none ↦ ok t
  | some k ↦ ok (record t { checkpoints = Maps.insert (k.review_id, k.id) k t.checkpoints })
]
apply_body t e (suggestion_applied r c repo path blob) =
    apply_suggestion_event t e r c repo path blob

unfoldable pub apply : Tables → Event → Result Tables StoreError
unfolding apply_body
apply t e = apply_body t e e.body
