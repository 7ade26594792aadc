-- ===== src/Store/Views.antt =====
-- crates/nits-review-core/src/store/views.rs: the fold from events to view tables. A table is an
-- association list, an id is its own key (the source's key is the canonical text of the id), and
-- a value is not serialised. A reason of an `Inconsistent` error is a constructor.
pub mod Apply
use nits.Prelude.{
  ℕ, Bool, true, false, not, ◌==◌, Option, none, some, List, [], ◌∷◌, ◌++◌, Result, ok, err, ◌>>=◌,
  if◌then◌else◌, nat_eq, bytes_eq, pair_eq,
}
use nits.Prelude.Maps
use nits.Protocol.Domain.{Text, RepoId, BlobOid, Anchor, CommentState, review, file, lines, deleted}
use nits.Protocol.Author.{Author, Human}
use nits.Protocol.Changes.{ReviewTarget, ResolvedTarget, ViewedContent}
use nits.Store.Events.{
  Repo, Workspace, Review, ReviewStatus, Comment, Thread, ThreadResolution, open_thread, deferred,
  resolved_by, for_root, ViewedMark, ReviewRequest, ReviewCheckpoint, SuggestionRecord, applied,
  from_created, Event, EventBody, workspace_created, workspace_updated, repo_attached,
  repo_detached, review_created, review_updated, review_target_updated, review_deleted,
  review_targets_resolved, comment_created, comment_edited, comment_deleted, comment_reanchored,
  thread_deferred, thread_resolved, thread_unresolved, file_viewed, file_unviewed, review_requested,
  review_checked, suggestion_applied,
}

pub data ReviewLifecycle : Type 0 where
  review_live : ReviewLifecycle
  review_deleted_at : ℕ → ReviewLifecycle

pub record ReviewRecord : Type 0 where
  pub review : Review
  pub resolved : Option (List ResolvedTarget)
  pub lifecycle : ReviewLifecycle

pub record Tables : Type 0 where
  pub workspaces : List (ℕ × Workspace)
  pub reviews : List (ℕ × ReviewRecord)
  pub comments : List ((ℕ × ℕ) × Comment)
  pub suggestions : List ((ℕ × ℕ) × SuggestionRecord)
  pub threads : List ((ℕ × ℕ) × Thread)
  pub requests : List ((ℕ × ℕ) × ReviewRequest)
  pub checkpoints : List ((ℕ × ℕ) × ReviewCheckpoint)
  pub viewed : List (((ℕ × ℕ) × List ℕ) × ViewedMark)
  pub anchors_by_blob : List (((ℕ × ℕ) × ℕ) × ℕ)

pub data Reason : Type 0 where
  unknown_workspace unknown_review unknown_suggestion : ℕ → Reason
  -- comment, review; thread, review; reply, thread
  unknown_comment unknown_thread reply_to_unknown : ℕ → ℕ → Reason
  review_has_no_repo : RepoId → Reason

pub data StoreError : Type 0 where
  inconsistent : (seq : ℕ) → Reason → StoreError

-- `Option::ok_or_else`
abbrev pub ok_or {ℓ κ} : {A : Type ℓ} {E : Type κ} → E → Option A → Result A E
ok_or e none = err e
ok_or e (some a) = ok a

unfoldable pub load_workspace : Tables → ℕ → ℕ → Result Workspace StoreError
load_workspace t seq w = ok_or (inconsistent seq (unknown_workspace w)) (Maps.get w t.workspaces)

unfoldable pub save_workspace : Workspace → ℕ → Tables → Tables
save_workspace w key t = record t { workspaces = Maps.insert key w t.workspaces }

unfoldable pub load_review : Tables → ℕ → ℕ → Result ReviewRecord StoreError
load_review t seq r = ok_or (inconsistent seq (unknown_review r)) (Maps.get r t.reviews)

unfoldable pub save_review : ReviewRecord → Tables → Tables
save_review rec t = record t { reviews = Maps.insert rec.review.id rec t.reviews }

unfoldable pub load_comment : Tables → ℕ → ℕ → ℕ → Result Comment StoreError
load_comment t seq r c = ok_or (inconsistent seq (unknown_comment c r)) (Maps.get (r, c) t.comments)

unfoldable pub save_comment : Comment → Tables → Tables
save_comment c t = record t { comments = Maps.insert (c.review_id, c.id) c t.comments }

unfoldable pub load_thread : Tables → ℕ → ℕ → ℕ → Result Thread StoreError
load_thread t seq r h = ok_or (inconsistent seq (unknown_thread h r)) (Maps.get (r, h) t.threads)

unfoldable pub save_thread : Thread → Tables → Tables
save_thread th t = record t { threads = Maps.insert (th.review_id, th.id) th t.threads }

-- The blob that an anchor is indexed under.
unfoldable pub anchor_key : Anchor → Option (ℕ × ℕ)
anchor_key review = none
anchor_key (file repo _ blob) = some (repo, blob)
anchor_key (lines repo _ _ blob _ _) = some (repo, blob)

unfoldable pub index_anchor : ℕ → Comment → Tables → Tables
unfolding anchor_key
index_anchor r c t = elim (anchor_key c.anchor) [
  | none ↦ t
  | some k ↦ record t { anchors_by_blob = Maps.insert (k, c.id) r t.anchors_by_blob }
]

unfoldable pub unindex_anchor : Comment → Tables → Tables
unfolding anchor_key
unindex_anchor c t = elim (anchor_key c.anchor) [
  | none ↦ t
  | some k ↦ record t { anchors_by_blob = Maps.remove (k, c.id) t.anchors_by_blob }
]

-- `ws.repos.retain(|r| r.id != repo)`
unfoldable pub without_repo : RepoId → List Repo → List Repo
without_repo repo [] = []
without_repo repo (r ∷ rs) =
    let rest = without_repo repo rs in if not (r.id == repo) then r ∷ rest else rest

-- `iter_mut().find(…)` and `clone_from`: the first target of that repository is replaced.
unfoldable pub replace_target : ReviewTarget → List ReviewTarget → Option (List ReviewTarget)
replace_target target [] = none
replace_target target (s ∷ ss) =
    let rest = replace_target target ss in
    if s.repo_id == target.repo_id
    then some (target ∷ ss)
    else elim rest [ none ↦ none | some ss' ↦ some (s ∷ ss') ]

-- The thread that a new comment starts or extends.
unfoldable pub thread_with : ℕ → Comment → Option Thread → Result Thread StoreError
unfolding for_root
thread_with seq c (some th) = ok (record th { replies = th.replies ++ c.id ∷ [] })
thread_with seq c none =
    if not (c.thread_id == c.id)
    then err (inconsistent seq (reply_to_unknown c.id c.thread_id))
    else ok (record {
      id = c.thread_id;
      review_id = c.review_id;
      root = c.id;
      replies = [];
      resolution = for_root c.kind;
    })

-- The insertions of `CommentCreated`, under the keys of the comment.
unfoldable pub add_suggestion : Comment → Tables → Tables
unfolding from_created
add_suggestion c t = elim (from_created c) [
  | none ↦ t
  | some s ↦ record t { suggestions = Maps.insert (c.review_id, c.id) s t.suggestions }
]

unfoldable pub put_comment : Comment → Thread → Tables → Tables
unfolding add_suggestion index_anchor
put_comment c th t = index_anchor c.review_id c (
    add_suggestion c (record t {
      threads = Maps.insert (c.review_id, c.thread_id) th t.threads;
      comments = Maps.insert (c.review_id, c.id) c t.comments;
    }))

unfoldable pub create_comment : Tables → ℕ → Comment → Result Tables StoreError
unfolding load_review thread_with put_comment
create_comment t seq c = load_review t seq c.review_id >>= λ _.
    thread_with seq c (Maps.get (c.review_id, c.thread_id) t.threads) >>= λ th.
    ok (put_comment c th t)

abbrev pub is_deleted : CommentState → Bool
is_deleted s = elim s [ deleted ↦ true | _ ↦ false ]

abbrev pub empty_tables : Tables
empty_tables = record {
  workspaces = [];
  reviews = [];
  comments = [];
  suggestions = [];
  threads = [];
  requests = [];
  checkpoints = [];
  viewed = [];
  anchors_by_blob = [];
}
